-- ===== src/Process/Steps.antt =====
-- What the steps of main do: which serve, which fail, and how they follow one another.
use vergo.Prelude.{
  Bool, true, false, not, ◌&&◌, ◌||◌, Option, none, some, List, [], ◌∷◌, ◌≡◌, if◌then◌else◌, ap,
  refl, arith,
}
use vergo.Prelude.Int.{ℤ, pos, ltb_ℤ}
use vergo.Config
use vergo.Config.{load, Environment}
use vergo.Db.{Res, ok, err}
use vergo.Process.{Answers, Pool, Call, Failure, Proc, continue, ◌>>=◌}
use vergo.Process.Telemetry
use vergo.Process.Telemetry.{trace_exporter_of, reader_of}
use vergo.Process.Database.{dsn, is_no_change, open_database, run_migrations}
use vergo.Process.Registration.{static_credentials, new_from_config, register}
use vergo.Process.Main.{
  Exit, exit, telemetry_config, start_up, serve_until_stopped, when, is_fatal, or_panic,
}

-- One of the calls passes the test.
abbrev pub any : (Call → Bool) → List Call → Bool
any p [] = false
any p (c ∷ cs) = p c || any p cs

-- What serves: the API, the metrics, the dispatcher.
abbrev pub is_service : Call → Bool
is_service (Call.serve _) = true
is_service (Call.serve_metrics _) = true
is_service Call.start_dispatcher = true
is_service _ = false

abbrev succeeds : Option Failure → Bool
succeeds none = true
succeeds (some _) = false

-- Every step of the start succeeds; nothing to migrate is no failure.
abbrev pub starts : Answers → Config.Config → Bool
starts answer cfg =
    succeeds (answer (Call.new_resource "vergo" cfg.app_version))
    && succeeds (answer (Call.new_trace_exporter (trace_exporter_of (telemetry_config cfg))))
    && succeeds (answer (Call.new_reader (reader_of (telemetry_config cfg))))
    && succeeds (answer (Call.open_database Pool.of_main (dsn cfg)))
    && succeeds (answer Call.ping_database)
    && succeeds (answer Call.new_migration_driver)
    && succeeds (answer Call.load_migrations)
    && succeeds (answer Call.new_migrations)
    && (succeeds (answer Call.migrate_up) || is_no_change (answer Call.migrate_up))

-- What the registration of the routes opens succeeds.
abbrev pub registers : Answers → Config.Config → Bool
registers answer cfg =
    succeeds (answer (Call.open_database Pool.of_router (dsn cfg)))
    && succeeds (answer (Call.load_aws_config cfg.s3_region (static_credentials cfg)))

abbrev pub served : Bool → Res Exit (Unit {0})
served fatal = if not fatal then ok tt else err (exit 1)

-- How main ends: whether the start succeeded, whether the registration did, whether the server failed.
abbrev pub ending : Bool → Bool → Bool → Res Exit (Unit {0})
ending started registered fatal =
    if started then (if registered then served fatal else err (exit 2)) else err (exit 1)

module _ (answer : Answers) (cfg : Config.Config) (handler : Bool) (calls : List Call) where
  pub start_up_ok : (start_up answer cfg calls).0 ≡ (
      if starts answer cfg
      then ok (record {
        shutdown = Telemetry.shutdown answer;
        prometheus_handler = ltb_ℤ (pos 0) cfg.metrics_port;
      })
      else err (exit 1))
  unfolding start_up open_database Telemetry.init run_migrations
  start_up_ok = ground arith

  pub start_up-any : any is_service (start_up answer cfg calls).1 ≡ any is_service calls
  unfolding start_up open_database Telemetry.init run_migrations
  start_up-any = ground arith

  pub registered_ok :
      (or_panic (register answer cfg) calls).0
      ≡ (if registers answer cfg then ok tt else err (exit 2))
  unfolding register open_database new_from_config
  registered_ok = ground arith

  pub registered-any :
      any is_service (or_panic (register answer cfg) calls).1 ≡ any is_service calls
  unfolding register open_database new_from_config
  registered-any = ground arith

  -- The rest of the process only adds to the calls, if its telemetry does.
  pub stopped-any :
      (port : ℤ)
      → any is_service calls ≡ true
      → any is_service
          (serve_until_stopped answer port
            (record { shutdown = Telemetry.shutdown answer; prometheus_handler = handler })
            calls).1
        ≡ true
  unfolding serve_until_stopped Telemetry.shutdown
  stopped-any port h = ground arith

  pub stopped-result :
      (port : ℤ)
      → (serve_until_stopped answer port
          (record { shutdown = Telemetry.shutdown answer; prometheus_handler = handler })
          calls).0
        ≡ served (is_fatal (answer (Call.serve port)))
  unfolding serve_until_stopped Telemetry.shutdown
  stopped-result port = ground arith

module _ {E A B : Type 0} (m : Proc E A) (k : A → Proc E B) (calls : List Call) where
  pub bind_ok : (a : A) → (m calls).0 ≡ ok a → (m >>= k) calls ≡ k a (m calls).1
  bind_ok a h = ap (λ r. continue r k (m calls).1) h

  pub bind_err : (e : E) → (m calls).0 ≡ err e → (m >>= k) calls ≡ (err e, (m calls).1)
  bind_err e h = ap (λ r. continue r k (m calls).1) h

pub when_ok :
    {E : Type 0} (b : Bool) (c : Call) (calls : List Call) → (when {E = E} b c calls).0 ≡ ok tt
when_ok true c calls = refl
when_ok false c calls = refl

pub when-any :
    (b : Bool) (c : Call) (calls : List Call)
    → is_service c ≡ false
    → any is_service (when {E = Exit} b c calls).1 ≡ any is_service calls
when-any true c calls h = ap (λ b. b || any is_service calls) h
when-any false c calls h = refl
