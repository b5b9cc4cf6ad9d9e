-- ===== src/Process/Startup.antt =====
-- When the process comes to serve: the steps of the start have an order, and one that fails ends it.
use vergo.Prelude.{
  ◌==◌, Bool, true, false, not, ◌&&◌, List, [], ◌∷◌, ◌≡◌, if◌then◌else◌, ap, refl, arith, inl, inr,
  Bool-cases, ◌∙◌,
}
use vergo.Prelude.Int.{ℤ, pos, ltb_ℤ}
use vergo.Config
use vergo.Config.{load, Environment}
use vergo.Db.{Res, ok, err}
use vergo.Process.{Answers, Call, note, ◌>>=◌, ◌>>◌}
use vergo.Process.Telemetry
use vergo.Process.Telemetry.{trace_exporter_of, reader_of}
use vergo.Process.Registration.{register}
use vergo.Process.Main.{
  Exit, exit, start_up, serve_until_stopped, run, main, metrics, when, is_fatal, or_panic,
}
use vergo.Process.Steps.{
  any, is_service, starts, registers, ending, start_up_ok, start_up-any, registered_ok,
  registered-any, stopped-any, stopped-result, bind_ok, bind_err, when_ok, when-any,
}

module _ (answer : Answers) (cfg : Config.Config) (handler : Bool) where
  abbrev telemetry : Telemetry.Result
  telemetry = record { shutdown = Telemetry.shutdown answer; prometheus_handler = handler }

  metrics_ok : (b : Bool) (port : ℤ) (calls : List Call) → (metrics answer b port calls).0 ≡ ok tt
  metrics_ok true port calls = ground arith
  metrics_ok false port calls = refl

  -- The calls when the registration begins, when it is over, and when the dispatcher starts.
  abbrev limited : List Call → List Call
  limited calls =
      Call.new_limiter cfg.rate_limit_rps cfg.rate_limit_burst
      ∷ (when {E = Exit} (not (cfg.app_env == "dev")) Call.set_release_mode calls).1

  abbrev routed : List Call → List Call
  routed calls =
      (when {E = Exit} (not (cfg.app_env == "production")) Call.serve_swagger (limited calls)).1

  abbrev registered : List Call → List Call
  registered calls = (or_panic (register answer cfg) (routed calls)).1

  abbrev prepared : List Call → List Call
  prepared calls =
      (metrics answer (ltb_ℤ (pos 0) cfg.metrics_port && handler) cfg.metrics_port
        (registered calls)).1

  -- What main does from the registration on.
  abbrev from_registration : List Call → Res Exit (Unit {0}) × List Call
  from_registration = or_panic (register answer cfg) >>= λ _. do
    metrics answer (ltb_ℤ (pos 0) cfg.metrics_port && handler) cfg.metrics_port
    note Call.start_dispatcher
    serve_until_stopped answer cfg.app_port telemetry

  run-routed :
      (calls : List Call) → run answer cfg telemetry calls ≡ from_registration (routed calls)
  unfolding run
  run-routed calls =
      bind_ok (when (not (cfg.app_env == "dev")) Call.set_release_mode) _ calls tt
        (when_ok _ _ calls)
      ∙ bind_ok (when (not (cfg.app_env == "production")) Call.serve_swagger) _ _ tt (when_ok _ _ _)

  run-prepared :
      (calls : List Call)
      → registers answer cfg ≡ true
      → run answer cfg telemetry calls
        ≡ serve_until_stopped answer cfg.app_port telemetry (Call.start_dispatcher ∷ prepared calls)
  run-prepared calls h =
      run-routed calls
      ∙ bind_ok (or_panic (register answer cfg)) _ (routed calls) tt
          (registered_ok answer cfg handler _ ∙ ap (λ b. if b then ok tt else err (exit 2)) h)
      ∙ bind_ok (metrics answer (ltb_ℤ (pos 0) cfg.metrics_port && handler) cfg.metrics_port) _ _ tt
          (metrics_ok _ _ _)

  run-panicked :
      (calls : List Call)
      → registers answer cfg ≡ false
      → run answer cfg telemetry calls ≡ (err (exit 2), registered calls)
  run-panicked calls h =
      run-routed calls
      ∙ bind_err (or_panic (register answer cfg)) _ (routed calls) (exit 2)
          (registered_ok answer cfg handler _ ∙ ap (λ b. if b then ok tt else err (exit 2)) h)

  registered-quiet : (calls : List Call) → any is_service (registered calls) ≡ any is_service calls
  registered-quiet calls =
      registered-any answer cfg handler _
      ∙ when-any (not (cfg.app_env == "production")) Call.serve_swagger (limited calls) refl
      ∙ when-any (not (cfg.app_env == "dev")) Call.set_release_mode calls refl

  -- Behind a start that succeeded, the process serves exactly when the registration succeeds.
  run_lem :
      (calls : List Call)
      → any is_service calls ≡ false
      → (any is_service (run answer cfg telemetry calls).1 ≡ registers answer cfg)
        × ((run answer cfg telemetry calls).0
            ≡ ending true (registers answer cfg) (is_fatal (answer (Call.serve cfg.app_port))))
  run_lem calls quiet = elim (Bool-cases (registers answer cfg)) [
    | inl h ↦
        rw (run-prepared calls h, h)
          (
            stopped-any answer cfg handler _ cfg.app_port refl,
            stopped-result answer cfg handler _ cfg.app_port,
          )
    | inr h ↦ rw (run-panicked calls h, h) (registered-quiet calls ∙ quiet, refl)
  ]

module _ (answer : Answers) (cfg : Config.Config) where
  abbrev first : List Call
  first = Call.load_dotenv ∷ []

  abbrev begin : Res Exit Telemetry.Result × List Call
  begin = start_up answer cfg first

  abbrev rest : Res Exit (Unit {0}) × List Call
  rest = (start_up answer cfg >>= run answer cfg) first

  abbrev metered : Bool
  metered = ltb_ℤ (pos 0) cfg.metrics_port

  rest_started :
      starts answer cfg ≡ true → rest ≡ run answer cfg (telemetry answer cfg metered) begin.1
  rest_started h =
      bind_ok (start_up answer cfg) (run answer cfg) first (telemetry answer cfg metered) (
        start_up_ok answer cfg false first
        ∙ ap (λ b. if b then ok (telemetry answer cfg metered) else err (exit 1)) h)

  rest_failed : starts answer cfg ≡ false → rest ≡ (err (exit 1), begin.1)
  rest_failed h = bind_err (start_up answer cfg) (run answer cfg) first (exit 1) (
      start_up_ok answer cfg false first
      ∙ ap (λ b. if b then ok (telemetry answer cfg metered) else err (exit 1)) h)

-- The process comes to serve the API, the metrics or the deliveries exactly when every step of its
-- start succeeds, where having nothing to migrate is no failure, and the registration of the routes
-- opens the database and S3. It ends without an error exactly when, besides, the server does not fail;
-- with exit status 2 where the start succeeds and the registration panics, and with 1 otherwise.
pub main_lem :
    (answer : Answers) (vars : Environment)
    → (any is_service (main answer vars []).1
        ≡ starts answer (load vars) && registers answer (load vars))
      × ((main answer vars []).0
          ≡ ending
              (starts answer (load vars))
              (registers answer (load vars))
              (is_fatal (answer (Call.serve (load vars).app_port))))
unfolding main
main_lem answer vars =
    let quiet = start_up-any answer (load vars) false (first answer (load vars)) in
    elim (Bool-cases (starts answer (load vars))) [
      | inl h ↦ rw (rest_started answer (load vars) h, h) (run_lem answer (load vars) _ _ quiet)
      | inr h ↦ rw (rest_failed answer (load vars) h, h) (quiet, refl)
    ]
