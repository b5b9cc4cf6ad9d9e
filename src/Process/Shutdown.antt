-- ===== src/Process/Shutdown.antt =====
-- What the process gives back: at its end, and when the start of the telemetry fails.
use vergo.Prelude.{
  not, is_some, ◌&&◌, ◌||◌, ◌↔◌, ℕ, suc, ◌==◌, Bool, true, false, List, [], ◌∷◌, ◌++◌, ◌≡◌, arith,
  if◌then◌else◌,
}
use vergo.Prelude.Int.{ℤ}
use vergo.Db.{ok, err}
use vergo.Process.{Answers, Call, Failure}
use vergo.Process.Telemetry
use vergo.Process.Telemetry.{Config, init, shutdown}
use vergo.Process.Database.{run_migrations, is_no_change}
use vergo.Process.Main.{exit, is_fatal, serve_until_stopped}

-- The calls but those of the logger.
abbrev pub unlogged : List Call → List Call
unlogged [] = []
unlogged (Call.log _ _ ∷ cs) = unlogged cs
unlogged (c ∷ cs) = c ∷ unlogged cs

-- The shutdown, newest first.
abbrev pub shutdown_calls : List Call
shutdown_calls =
    Call.stop_limiter ∷ Call.close_database ∷ Call.shutdown_meter ∷ Call.shutdown_tracer
    ∷ Call.shutdown_http ∷ Call.stop_ticker ∷ Call.wait_for_signal ∷ []

module _ (answer : Answers) where
  abbrev pub otel : Bool → Telemetry.Result
  otel handler = record { shutdown = shutdown answer; prometheus_handler = handler }

  -- A server that serves until a signal comes is followed by a shutdown in one order, whichever of
  -- its steps fail: the ticker, the connections, the traces, the metrics, the database and the
  -- limiter; then main returns. A server that fails ends the process with status 1, and nothing is
  -- shut down. The calls are those other than the logger's.
  pub serve_until_stopped_lem :
      (port : ℤ) (handler : Bool) (calls : List Call)
      → ((serve_until_stopped answer port (otel handler) calls).0
          ≡ (if is_fatal (answer (Call.serve port)) then err (exit 1) else ok tt))
        × (unlogged (serve_until_stopped answer port (otel handler) calls).1
            ≡ (if is_fatal (answer (Call.serve port)) then [] else shutdown_calls)
              ++ Call.serve port ∷ unlogged calls)
  unfolding serve_until_stopped shutdown
  serve_until_stopped_lem port handler calls = ground arith

-- The calls that pass a test, counted.
abbrev pub tally : (Call → Bool) → List Call → ℕ
tally p [] = 0
tally p (c ∷ cs) = if p c then suc (tally p cs) else tally p cs

abbrev pub is_set_tracer : Call → Bool
is_set_tracer (Call.set_tracer_provider _) = true
is_set_tracer _ = false

abbrev pub is_shutdown_tracer : Call → Bool
is_shutdown_tracer Call.shutdown_tracer = true
is_shutdown_tracer _ = false

abbrev pub is_set_meter : Call → Bool
is_set_meter (Call.set_meter_provider _) = true
is_set_meter _ = false

-- A start of the telemetry that fails leaves no tracer provider running, whichever step failed: it
-- shuts down as many as it installed, and installs no meter provider.
pub init-fails :
    (answer : Answers) (cfg : Config) (e : Failure)
    → (init answer cfg []).0 ≡ err e
    → (tally is_set_tracer (init answer cfg []).1 ≡ tally is_shutdown_tracer (init answer cfg []).1)
      × (tally is_set_meter (init answer cfg []).1 ≡ 0)
unfolding init
init-fails answer cfg e h = (ground arith, ground arith)

abbrev pub is_up_to_date : Call → Bool
is_up_to_date (Call.log _ message) = message == "migrations up to date"
is_up_to_date _ = false

abbrev pub is_applied : Call → Bool
is_applied (Call.log _ message) = message == "migrations applied successfully"
is_applied _ = false

-- The steps of the migrations succeed; nothing to migrate is no failure.
abbrev pub migrates : Answers → Bool
migrates answer =
    not (is_some (answer Call.new_migration_driver))
    && not (is_some (answer Call.load_migrations))
    && not (is_some (answer Call.new_migrations))
    && (not (is_some (answer Call.migrate_up)) || is_no_change (answer Call.migrate_up))

-- The migrations are never reported as up to date, whatever the libraries answer. They succeed exactly
-- when each step does, where having nothing to migrate is no failure, and are then reported as applied,
-- once; where a step fails, nothing is reported.
pub run_migrations-reports_applied :
    (answer : Answers)
    → (tally is_up_to_date (run_migrations answer []).1 ≡ 0)
      × (tally is_applied (run_migrations answer []).1 ≡ (if migrates answer then 1 else 0))
      × (((run_migrations answer []).0 ≡ ok tt) ↔ (migrates answer ≡ true))
unfolding run_migrations
run_migrations-reports_applied answer =
    (ground arith, ground arith, (λ h. ground arith, λ h. ground arith))
