-- ===== src/Http/Engine.antt =====
-- The middleware that cmd/api/main.go puts before every route: Recover, the one of otelgin, RateLimit
-- and Logging. A panic leaves Logging before it writes. The middleware of otelgin gives the request
-- its span: `inner` is the span behind it, `outer` the one before. The headers of the rate limiter are
-- those of `rate_limit`, and left out of the response.
pub mod Entries
use vergo.Prelude.{ℕ, Bool, true, false}
use vergo.RateLimit.{Limiter}
use vergo.Http.Gin.{Request, Body, reply, no_keys}
use vergo.Http.Middleware.RateLimit.{rate_limit}
use vergo.Http.Middleware.Logging.{Line, SpanContext, request_entry}
use vergo.Http.Middleware.Recover.{Outcome, Site, Chain, responded, panicked, with_entry, recover}

-- The handler behind c.Next(), and what Logging does when it returns.
abbrev pub logged : Line → Request → SpanContext → Outcome → Chain
logged line r sc (responded resp) s =
    (responded resp, with_entry (request_entry line r sc resp.status) s)
logged line r sc (panicked written error) s = (panicked written error, s)

unfoldable pub logging : Line → Request → SpanContext → Chain → Chain
logging line r sc next s = logged line r sc (next s).0 (next s).1

-- RateLimit, with the instants that it reads.
abbrev pub admitted_or_refused : Bool → Limiter → Chain → Chain
admitted_or_refused true l next s = next (record s { limiter = l })
admitted_or_refused false l next s =
    (responded (reply 429 (Body.error "rate_limit_exceeded")), record s { limiter = l })

unfoldable pub rate_limited : Request → ℕ → ℕ → Chain → Chain
unfolding rate_limit
rate_limited r now later next s =
    let ((ok, headers), l) = rate_limit r no_keys now later s.limiter in
    admitted_or_refused ok l next s

-- A request through all of them.
unfoldable pub serve : Line → Request → SpanContext → SpanContext → ℕ → ℕ → Chain → Chain
unfolding recover rate_limited logging
serve line r outer inner now later route =
    recover line outer (rate_limited r now later (logging line r inner route))
