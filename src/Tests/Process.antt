-- ===== src/Tests/Process.antt =====
-- Runs of the process and of the middleware before the routes.
use vergo.Prelude.{
  ℕ, String, true, false, ◌||◌, ◌&&◌, none, some, [], ◌∷◌, ◌++◌, ◌≡◌, ◌↔◌, refl, leb, if◌then◌else◌,
}
use vergo.Prelude.Int.{pos}
use vergo.Config.{load, getenv, getint, getbool, split_csv}
use vergo.Db.{ok, err}
use vergo.RateLimit
use vergo.RateLimit.{allow, remaining}
use vergo.Http.Middleware.RateLimit.{rate_limit, rate_limit_key}
use vergo.Process.{Answers, Call, Failure, Pool}
use vergo.Process.Telemetry
use vergo.Process.Database.{dsn, open_database, run_migrations}
use vergo.Process.Main.{exit, main, start_up, run, is_fatal, serve_until_stopped}
use vergo.Process.Steps.{any, is_service, starts, registers, ending}
use vergo.Process.Startup.{main_lem}
use vergo.Process.Registration.{register, new_from_config}
use vergo.Process.Shutdown.{
  unlogged, otel, shutdown_calls, serve_until_stopped_lem, tally, is_set_tracer, is_shutdown_tracer,
  is_set_meter, init-fails, is_up_to_date, is_applied, migrates, run_migrations-reports_applied,
}
use vergo.Http.Gin.{Response, Body, reply}
use vergo.Http.Middleware.Logging.{Entry, Line, SpanContext}
use vergo.Http.Middleware.Recover.{Chain, Site, panicked, responded}
use vergo.Http.Engine.{serve}
use vergo.Http.Engine.Entries.{
  verdict, entered, is_error, has_panicked, serve-admitted, serve-refused,
}
use vergo.Tests.Sample.{world, request}

-- The library of metrics fails, there is nothing to migrate, and the rest succeeds.
abbrev answers : Answers
answers (Call.new_reader _) = some (Failure.library_error 1)
answers Call.migrate_up = some Failure.no_change
answers _ = none

abbrev no_vars : String → String
no_vars _ = ""

main_lem_example :
    (any is_service (main answers no_vars []).1
      ≡ starts answers (load no_vars) && registers answers (load no_vars))
    × ((main answers no_vars []).0
        ≡ ending
            (starts answers (load no_vars))
            (registers answers (load no_vars))
            (is_fatal (answers (Call.serve (load no_vars).app_port))))
main_lem_example = main_lem answers no_vars

-- Nothing fails, and main returns.
returns : (main (λ _. none) no_vars []).0 ≡ ok tt
unfolding main load getenv getint getbool split_csv start_up Telemetry.init open_database
    run_migrations run serve_until_stopped register new_from_config
returns = refl

-- A configuration of AWS that cannot be loaded.
abbrev no_aws : Answers
no_aws (Call.load_aws_config _ _) = some (Failure.library_error 2)
no_aws _ = none

-- The second pool of connections cannot be opened.
abbrev no_router_pool : Answers
no_router_pool (Call.open_database Pool.of_router _) = some (Failure.library_error 3)
no_router_pool _ = none

panics_too : (main no_router_pool no_vars []).0 ≡ err (exit 2)
unfolding main load getenv getint getbool split_csv start_up Telemetry.init open_database
    run_migrations run serve_until_stopped register new_from_config
panics_too = refl

panics : (main no_aws no_vars []).0 ≡ err (exit 2)
unfolding main load getenv getint getbool split_csv start_up Telemetry.init open_database
    run_migrations run serve_until_stopped register new_from_config
panics = refl

-- The data source name of the defaults.
dsn_of_defaults :
    dsn (load no_vars)
    ≡ "host=localhost port=5432 user=app password=app dbname=vergo sslmode=disable"
unfolding dsn load getenv getint getbool split_csv
dsn_of_defaults = refl

serve_until_stopped_example :
    ((serve_until_stopped answers (pos 8080) (otel answers true) []).0
      ≡ (if is_fatal (answers (Call.serve (pos 8080))) then err (exit 1) else ok tt))
    × (unlogged (serve_until_stopped answers (pos 8080) (otel answers true) []).1
        ≡ (if is_fatal (answers (Call.serve (pos 8080))) then [] else shutdown_calls)
          ++ Call.serve (pos 8080) ∷ unlogged [])
serve_until_stopped_example = serve_until_stopped_lem answers (pos 8080) true []

abbrev settings : Telemetry.Config
settings = record {
  service_name = "";
  service_version = "0.1.0";
  trace_writer = none;
  metric_writer = none;
  otlp_endpoint = "localhost:4317";
  otlp_insecure = true;
  prometheus_enabled = true;
}

no_reader : (Telemetry.init answers settings []).0 ≡ err (Failure.library_error 1)
unfolding Telemetry.init
no_reader = refl

init-fails_example :
    (tally is_set_tracer (Telemetry.init answers settings []).1
      ≡ tally is_shutdown_tracer (Telemetry.init answers settings []).1)
    × (tally is_set_meter (Telemetry.init answers settings []).1 ≡ 0)
init-fails_example = init-fails answers settings (Failure.library_error 1) no_reader

run_migrations_example :
    (tally is_up_to_date (run_migrations answers []).1 ≡ 0)
    × (tally is_applied (run_migrations answers []).1 ≡ (if migrates answers then 1 else 0))
    × (((run_migrations answers []).0 ≡ ok tt) ↔ (migrates answers ≡ true))
run_migrations_example = run_migrations-reports_applied answers

abbrev line : Line
line = record { method = "GET"; path = "/readyz" }

abbrev no_span : SpanContext
no_span = record { trace_id = none; span_id = none }

abbrev span : SpanContext
span = record { trace_id = some "t1"; span_id = some "s1" }

-- A site whose limiter gives out one token, or none.
abbrev site : ℕ → Site
site burst = record { limiter = RateLimit.new 1 burst; entries = []; world = world }

-- A route that panics before it writes.
abbrev failing : Chain
failing s = (panicked none "nil map", s)

abbrev served : ℕ → Site
served burst = (serve line request no_span span 5 6 failing (site burst)).1

admitted : verdict line request no_span span 5 6 (site 1) ≡ true
unfolding rate_limit allow remaining rate_limit_key
admitted = refl

refused : verdict line request no_span span 5 6 (site 0) ≡ false
unfolding rate_limit allow remaining rate_limit_key
refused = refl

serve-admitted_example :
    (resp : Response) × (e : Entry) × ((serve line request no_span span 5 6 failing (site 1)).0
      ≡ responded resp)
    × ((served 1).entries
        ≡ (failing (entered line request no_span span 5 6 (site 1))).1.entries ++ e ∷ [])
    × (is_error e.level
        ≡ leb 500 resp.status
          || has_panicked (failing (entered line request no_span span 5 6 (site 1))).0)
    × ((served 1).world ≡ (failing (entered line request no_span span 5 6 (site 1))).1.world)
serve-admitted_example = serve-admitted line request no_span span 5 6 failing (site 1) admitted

serve-refused_example :
    ((serve line request no_span span 5 6 failing (site 0)).0
      ≡ responded (reply 429 (Body.error "rate_limit_exceeded")))
    × ((served 0).entries ≡ [])
    × ((served 0).world ≡ world)
serve-refused_example = serve-refused line request no_span span 5 6 failing (site 0) refused
