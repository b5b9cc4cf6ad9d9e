-- ===== src/Process.antt =====
-- The process around the server: cmd/api/main.go, internal/pkg/telemetry/otel.go,
-- internal/pkg/db/db.go, and what internal/http/router/router.go opens. A `Proc E A` is a Go function that returns (A, error) and is read through the
-- calls that it makes of the libraries, newest first. What each call answers is a function of the
-- call, given by the environment: `none` is success.
pub mod Telemetry
pub mod Database
pub mod Registration
pub mod Main
pub mod Steps
pub mod Startup
pub mod Shutdown
use vergo.Prelude.{ℕ, String, Bool, Option, none, some, List, [], ◌∷◌}
use vergo.Prelude.Int.{ℤ}
use vergo.Db.{Res, ok, err, fail_as}

-- migrate.ErrNoChange, http.ErrServerClosed, the other errors of the libraries, and fmt.Errorf's %w.
pub data Failure : Type 0 where
  no_change server_closed : Failure
  library_error : ℕ → Failure
  wrapped : String → Failure → Failure

-- The levels of log/slog.
pub data Level : Type 0 where
  info warn error : Level

-- io.Discard, or a writer that the caller gave.
pub data Writer : Type 0 where
  discard : Writer
  custom : ℕ → Writer

-- What the tracer provider exports to, and what reads the meter provider.
pub data TraceExporter : Type 0 where
  otlp : String → Bool → TraceExporter
  stdout : Writer → TraceExporter

pub data Reader : Type 0 where
  prometheus : Reader
  periodic : Writer → Reader

-- credentials.NewStaticCredentialsProvider; the token may be empty.
pub record Credentials : Type 0 where
  pub access_key_id : String
  pub secret_access_key : String
  pub session_token : String

-- Which of the two calls of db.Open: that of main, or that of Register.
pub data Pool : Type 0 where
  of_main of_router : Pool

pub data Call : Type 0 where
  log : Level → String → Call
  load_dotenv : Call
  new_resource : String → String → Call
  new_trace_exporter : TraceExporter → Call
  set_tracer_provider : TraceExporter → Call
  new_reader : Reader → Call
  set_meter_provider : Reader → Call
  shutdown_tracer shutdown_meter : Call
  open_database : Pool → String → Call
  ping_database close_database : Call
  new_migration_driver load_migrations new_migrations migrate_up : Call
  set_release_mode : Call
  new_limiter : ℤ → ℤ → Call
  stop_limiter : Call
  serve_swagger : Call
  load_aws_config : String → Option Credentials → Call
  new_s3_client : Bool → Option String → Call
  serve_metrics : ℤ → Call
  start_dispatcher stop_ticker : Call
  serve : ℤ → Call
  wait_for_signal shutdown_http : Call

abbrev pub Proc : Type 0 → Type 0 → Type 0
Proc E A = List Call → Res E A × List Call

module _ {E A : Type 0} where
  abbrev pub pure : A → Proc E A
  pure a calls = (ok a, calls)

  abbrev pub raise : E → Proc E A
  raise e calls = (err e, calls)

module _ {E A B : Type 0} where
  abbrev pub continue : Res E A → (A → Proc E B) → Proc E B
  continue (ok a) f calls = f a calls
  continue (err e) f calls = (err e, calls)

  infixl 5 ◌>>=◌ ◌>>◌
  abbrev pub ◌>>=◌ : Proc E A → (A → Proc E B) → Proc E B
  ◌>>=◌ m f calls = continue (m calls).0 f (m calls).1

  abbrev pub ◌>>◌ : Proc E A → Proc E B → Proc E B
  m >> n = m >>= λ _. n

module _ {E F A : Type 0} where
  abbrev pub attempt : Proc E A → Proc F (Res E A)
  attempt m calls = (ok (m calls).0, (m calls).1)

  abbrev pub or_fail : (E → F) → Proc E A → Proc F A
  or_fail f m calls = (fail_as f (m calls).0, (m calls).1)

-- A call that returns no error.
abbrev pub note : {E : Type 0} → Call → Proc E (Unit {0})
note c calls = (ok tt, c ∷ calls)

abbrev pub reported : Option Failure → Res Failure (Unit {0})
reported none = ok tt
reported (some e) = err e

-- What the libraries answer.
abbrev pub Answers : Type 0
Answers = Call → Option Failure

abbrev pub call : Answers → Call → Proc Failure (Unit {0})
call answer c calls = (reported (answer c), c ∷ calls)
