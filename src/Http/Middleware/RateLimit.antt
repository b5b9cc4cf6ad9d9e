-- ===== src/Http/Middleware/RateLimit.antt =====
-- internal/http/middleware/ratelimit.go. The limiter reads the clock for each of its two calls.
use vergo.Prelude.{ℕ, String, Bool, Option, none, some, if◌then◌else◌}
use vergo.Prelude.Text.{append}
use vergo.RateLimit.{Limiter, allow, remaining}
use vergo.Http.Gin.{Request, Context, org_id}

-- The headers X-RateLimit-Limit, X-RateLimit-Remaining and Retry-After.
pub record RateHeaders : Type 0 where
  pub limit : ℕ
  pub remaining : ℕ
  pub retry_after : Option ℕ

abbrev key_of : Option String → Request → String
key_of (some oid) r = append "tenant:" oid
key_of none r = append "ip:" r.client_ip

unfoldable pub rate_limit_key : Request → Context → String
unfolding org_id
rate_limit_key r c = key_of (org_id c) r

-- Whether the request goes on, or is answered with 429, and the headers.
unfoldable pub rate_limit : Request → Context → ℕ → ℕ → Limiter → (Bool × RateHeaders) × Limiter
unfolding rate_limit_key
rate_limit r c now later l =
    let key = rate_limit_key r c in
    let (ok, l') = allow l now key in
    (
      (
        ok,
        record {
          limit = l'.burst;
          remaining = remaining l' later key;
          retry_after = if ok then none else some 1;
        },
      ),
      l',
    )
