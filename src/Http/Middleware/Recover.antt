-- ===== src/Http/Middleware/Recover.antt =====
-- internal/http/middleware/recover.go, and what a chain of gin's handlers comes to. The stack in the
-- entry of a panic is left out of the attributes.
use vergo.Prelude.{String, Option, none, some, List, [], ◌∷◌, ◌++◌}
use vergo.Process.{Level}
use vergo.Db.{World}
use vergo.RateLimit.{Limiter}
use vergo.Http.Gin.{Body, Response, reply, after_writing}
use vergo.Http.Middleware.Logging.{Entry, Line, SpanContext, handle, text}

-- A response, or a panic with its text, and with what had been written before it.
pub data Outcome : Type 0 where
  responded : Response → Outcome
  panicked : Option Response → String → Outcome

-- What a request finds and leaves: the rate limiter, the log, oldest entry first, and the world.
pub record Site : Type 0 where
  pub limiter : Limiter
  pub entries : List Entry
  pub world : World

abbrev pub Chain : Type 0
Chain = Site → Outcome × Site

abbrev pub with_entry : Entry → Site → Site
with_entry e s = record s { entries = s.entries ++ e ∷ [] }

abbrev pub panic_entry : Line → SpanContext → String → Entry
panic_entry line sc error = handle sc (record {
  level = Level.error;
  message = "panic recovered";
  attrs = ("error", text error) ∷ ("method", text line.method) ∷ ("path", text line.path) ∷ [];
})

-- The status that was written stays.
abbrev pub panic_reply : Option Response → Response
panic_reply none = reply 500 (Body.error "internal_server_error")
panic_reply (some r) = after_writing r (reply 500 (Body.error "internal_server_error"))

abbrev pub recovered : Line → SpanContext → Outcome → Chain
recovered line sc (responded r) s = (responded r, s)
recovered line sc (panicked written error) s =
    (responded (panic_reply written), with_entry (panic_entry line sc error) s)

unfoldable pub recover : Line → SpanContext → Chain → Chain
recover line sc next s = recovered line sc (next s).0 (next s).1
