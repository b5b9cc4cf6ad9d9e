-- ===== src/Process/Main.antt =====
-- cmd/api/main.go. The process is over with os.Exit(1) or a panic, which are errors here, or when main
-- returns.
-- A goroutine is recorded where it starts. An error of the server ends the process: the model takes it
-- to come before any signal. `vars` is the environment that init() leaves, with the file .env.
use vergo.Prelude.{ℕ, String, ◌==◌, Bool, true, false, not, ◌&&◌, Option, none, some, ◌∷◌}
use vergo.Prelude.Int.{ℤ, pos, ltb_ℤ}
use vergo.Config
use vergo.Config.{load, Environment}
use vergo.Db.{Res, ok, err}
use vergo.Process.{
  Proc, Failure, Pool, Answers, Call, Level, call, note, pure, attempt, ◌>>=◌, ◌>>◌,
}
use vergo.Process.Telemetry
use vergo.Process.Database.{open_database, run_migrations}
use vergo.Process.Registration.{register}

-- os.Exit
pub data Exit : Type 0 where
  exit : ℕ → Exit

-- `if err := ...; err != nil { slog.Error(message, "error", err); os.Exit(1) }`
module _ {A : Type 0} where
  abbrev pub exited : String → Res Failure A → Proc Exit A
  exited message (ok a) calls = (ok a, calls)
  exited message (err e) calls = (err (exit 1), Call.log Level.error message ∷ calls)

  abbrev pub or_exit : String → Proc Failure A → Proc Exit A
  or_exit message m calls = exited message (m calls).0 (m calls).1

-- A panic runs the deferred limiter.Stop(), which os.Exit does not, and ends the process with status 2.
abbrev pub panicked : Res Failure (Unit {0}) → Proc Exit (Unit {0})
panicked (ok _) calls = (ok tt, calls)
panicked (err e) calls = (err (exit 2), Call.stop_limiter ∷ calls)

abbrev pub or_panic : Proc Failure (Unit {0}) → Proc Exit (Unit {0})
or_panic m calls = panicked (m calls).0 (m calls).1

abbrev pub when : {E : Type 0} → Bool → Call → Proc E (Unit {0})
when true c = note c
when false c = pure tt

-- A server that ends with an error other than http.ErrServerClosed.
abbrev pub is_fatal : Option Failure → Bool
is_fatal none = false
is_fatal (some Failure.server_closed) = false
is_fatal (some _) = true

-- What is logged of a step of the shutdown.
abbrev pub outcome : String → String → Res Failure (Unit {0}) → Call
outcome failed done (ok _) = Call.log Level.info done
outcome failed done (err e) = Call.log Level.error failed

abbrev pub telemetry_config : Config.Config → Telemetry.Config
telemetry_config cfg = record {
  service_name = "vergo";
  service_version = cfg.app_version;
  trace_writer = none;
  metric_writer = none;
  otlp_endpoint = cfg.otlp_endpoint;
  otlp_insecure = cfg.otlp_insecure;
  prometheus_enabled = ltb_ℤ (pos 0) cfg.metrics_port;
}

module _ (answer : Answers) where
  -- One step of the shutdown, whose error is only logged.
  abbrev pub step : String → String → Proc Failure (Unit {0}) → Proc Exit (Unit {0})
  step failed done m = attempt m >>= λ r. note (outcome failed done r)

  unfoldable pub graceful_shutdown : Proc Failure (Unit {0}) → Proc Exit (Unit {0})
  graceful_shutdown shutdown_telemetry = do
    note (Call.log Level.info "draining http connections")
    step "http shutdown error" "http server stopped" (call answer Call.shutdown_http)
    note (Call.log Level.info "flushing telemetry")
    step "telemetry flush error" "telemetry flushed" shutdown_telemetry
    note (Call.log Level.info "closing database connections")
    step "database close error" "database connections closed" (call answer Call.close_database)
    note (Call.log Level.info "shutdown complete")

  -- The goroutine of the metrics server only logs its error.
  abbrev pub serve_metrics : ℤ → Proc Exit (Unit {0})
  serve_metrics port = do
    note (Call.serve_metrics port)
    note (Call.log Level.info "metrics server started")
    when (is_fatal (answer (Call.serve_metrics port))) (Call.log Level.error "metrics server error")

  abbrev pub metrics : Bool → ℤ → Proc Exit (Unit {0})
  metrics true port = serve_metrics port
  metrics false port = pure tt

  abbrev pub stopped_by : Bool → Proc Exit (Unit {0})
  stopped_by true calls = (err (exit 1), Call.log Level.error "server error" ∷ calls)
  stopped_by false calls = (ok tt, calls)

  abbrev pub serve : ℤ → Proc Exit (Unit {0})
  serve port = do
    note (Call.log Level.info "server started")
    note (Call.serve port)
    stopped_by (is_fatal (answer (Call.serve port)))

  -- Up to the migrations, in the order of main.
  unfoldable pub start_up : Config.Config → Proc Exit Telemetry.Result
  start_up cfg = do
    otel ← or_exit "telemetry init failed" (Telemetry.init answer (telemetry_config cfg))
    when (not (cfg.otlp_endpoint == "")) (Call.log Level.info "otlp exporter enabled")
    note (Call.log Level.info "connecting to database")
    or_exit "database connection failed" (open_database answer Pool.of_main cfg)
    or_exit "database ping failed" (call answer Call.ping_database)
    note (Call.log Level.info "database connection established")
    note (Call.log Level.info "running migrations")
    or_exit "migrations failed" (run_migrations answer)
    pure otel

  -- From the start of the server to the end of main.
  unfoldable pub serve_until_stopped : ℤ → Telemetry.Result → Proc Exit (Unit {0})
  unfolding graceful_shutdown
  serve_until_stopped port otel = do
    serve port
    note Call.wait_for_signal
    note (Call.log Level.info "shutdown signal received")
    note Call.stop_ticker
    graceful_shutdown otel.shutdown
    note Call.stop_limiter

  -- What main does once the start has succeeded. The routes that it declares between are modelled in
  -- Http/Engine, Http/Health and Http/Router.
  unfoldable pub run : Config.Config → Telemetry.Result → Proc Exit (Unit {0})
  run cfg otel = do
    when (not (cfg.app_env == "dev")) Call.set_release_mode
    note (Call.new_limiter cfg.rate_limit_rps cfg.rate_limit_burst)
    when (not (cfg.app_env == "production")) Call.serve_swagger
    or_panic (register answer cfg)
    metrics (ltb_ℤ (pos 0) cfg.metrics_port && otel.prometheus_handler) cfg.metrics_port
    note Call.start_dispatcher
    serve_until_stopped cfg.app_port otel

  unfoldable pub main : Environment → Proc Exit (Unit {0})
  main vars = do
    attempt (call answer Call.load_dotenv)
    otel ← start_up (load vars)
    run (load vars) otel
