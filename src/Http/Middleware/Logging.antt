-- ===== src/Http/Middleware/Logging.antt =====
-- internal/pkg/logging/logging.go and internal/http/middleware/logging.go. An entry of the log is what
-- the handler behind the program's own gets. The clock's latency is left out of the attributes.
use vergo.Prelude.{ℕ, String, Option, none, some, List, [], ◌∷◌, ◌++◌, ◌==◌, leb, if◌then◌else◌}
use vergo.Process.{Level}
use vergo.Http.Gin.{Request}

pub data Value : Type 0 where
  text : String → Value
  number : ℕ → Value

pub record Entry : Type 0 where
  pub level : Level
  pub message : String
  pub attrs : List (String × Value)

-- trace.SpanContext: an identifier that is not valid is missing.
pub record SpanContext : Type 0 where
  pub trace_id : Option String
  pub span_id : Option String

pub data Format : Type 0 where
  text_format json_format : Format

-- logging.New: the format of the handler that is wrapped.
unfoldable pub new : String → Format
new env = if env == "dev" then Format.text_format else Format.json_format

abbrev id_attr : String → Option String → List (String × Value)
id_attr key none = []
id_attr key (some id) = (key, text id) ∷ []

-- otelHandler.Handle
unfoldable pub handle : SpanContext → Entry → Entry
handle sc r = record r {
  attrs = r.attrs ++ (id_attr "trace_id" sc.trace_id ++ id_attr "span_id" sc.span_id);
}

-- The method and the path of a request.
pub record Line : Type 0 where
  pub method : String
  pub path : String

abbrev pub level_of : ℕ → Level
level_of status =
    if leb 500 status then Level.error else if leb 400 status then Level.warn else Level.info

-- What Logging writes of a request once the status is known.
unfoldable pub request_entry : Line → Request → SpanContext → ℕ → Entry
unfolding handle
request_entry line r sc status = handle sc (record {
  level = level_of status;
  message = "http request";
  attrs =
      ("method", text line.method)
      ∷ ("path", text line.path)
      ∷ ("status", number status)
      ∷ ("client_ip", text r.client_ip)
      ∷ [];
})
