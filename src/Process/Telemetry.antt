-- ===== src/Process/Telemetry.antt =====
-- internal/pkg/telemetry/otel.go
use vergo.Prelude.{String, ◌==◌, Bool, Option, none, some, if◌then◌else◌}
use vergo.Db.{Res, ok, err}
use vergo.Process.{
  Proc, Failure, Answers, Call, Writer, TraceExporter, Reader, call, note, pure, attempt, ◌>>=◌,
  ◌>>◌,
}

pub record Config : Type 0 where
  pub service_name : String
  pub service_version : String
  pub trace_writer : Option Writer
  pub metric_writer : Option Writer
  pub otlp_endpoint : String
  pub otlp_insecure : Bool
  pub prometheus_enabled : Bool

-- The field `prometheus_handler` is whether there is one.
pub record Result : Type 0 where
  pub shutdown : Proc Failure (Unit {0})
  pub prometheus_handler : Bool

-- A writer that is nil discards.
abbrev writer_of : Option Writer → Writer
writer_of none = Writer.discard
writer_of (some w) = w

abbrev pub trace_exporter_of : Config → TraceExporter
trace_exporter_of cfg =
    if cfg.otlp_endpoint == ""
    then TraceExporter.stdout (writer_of cfg.trace_writer)
    else TraceExporter.otlp cfg.otlp_endpoint cfg.otlp_insecure

abbrev pub reader_of : Config → Reader
reader_of cfg =
    if cfg.prometheus_enabled
    then Reader.prometheus
    else Reader.periodic (writer_of cfg.metric_writer)

abbrev pub named : Config → Config
named cfg = record cfg {
  service_name = if cfg.service_name == "" then "vergo" else cfg.service_name;
}

-- `if firstErr == nil { firstErr = e }`, of the two errors.
abbrev pub first_error : Res Failure (Unit {0}) → Res Failure (Unit {0}) → Res Failure (Unit {0})
first_error (ok _) r = r
first_error (err e) _ = err e

module _ (answer : Answers) where
  unfoldable pub new_trace_exporter : Config → Proc Failure TraceExporter
  new_trace_exporter cfg = do
    call answer (Call.new_trace_exporter (trace_exporter_of cfg))
    pure (trace_exporter_of cfg)

  -- The reader, and whether it is the exporter of Prometheus.
  unfoldable pub new_meter_provider : Config → Proc Failure (Reader × Bool)
  new_meter_provider cfg = do
    call answer (Call.new_reader (reader_of cfg))
    pure (reader_of cfg, cfg.prometheus_enabled)

  unfoldable pub shutdown : Proc Failure (Unit {0})
  shutdown = do
    traces ← attempt {F = Failure} (call answer Call.shutdown_tracer)
    metrics ← attempt {F = Failure} (call answer Call.shutdown_meter)
    λ calls. (first_error traces metrics, calls)

  -- An error of the meter provider shuts down the tracer provider, whose error is dropped.
  abbrev pub after_meter : Res Failure (Reader × Bool) → Proc Failure (Reader × Bool)
  after_meter (ok r) = pure r
  after_meter (err e) = do attempt (call answer Call.shutdown_tracer); λ calls. (err e, calls)

  unfoldable pub init : Config → Proc Failure Result
  unfolding new_trace_exporter new_meter_provider
  init cfg = do
    call answer (Call.new_resource (named cfg).service_name cfg.service_version)
    traces ← new_trace_exporter (named cfg)
    note (Call.set_tracer_provider traces)
    meter ← attempt (new_meter_provider (named cfg))
    (reader, handler) ← after_meter meter
    note (Call.set_meter_provider reader)
    pure (record { shutdown = shutdown; prometheus_handler = handler })
