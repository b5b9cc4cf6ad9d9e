-- ===== src/RateLimit.antt =====
-- internal/pkg/ratelimit/limiter.go: a token bucket per key. The tokens, a float64 in the source, are
-- counted in units of 10^-9 tokens, and the rate is a whole number of tokens per second, so that a
-- nanosecond adds `rate` units exactly. Instants are nanoseconds of the monotonic clock, and each
-- operation takes the one that it reads. The mutex makes the operations a sequence; `sweep` is one
-- tick of the goroutine that cleans up.
pub mod Level
pub mod Bound
use vergo.Prelude.{
  ℕ, ◌+◌, ◌-◌, ◌*◌, ◌/◌, String, ◌==◌, Bool, true, false, Option, none, some, ltb, if◌then◌else◌,
}

-- The units of one token, and of one second.
abbrev pub token : ℕ
token = 1000000000

pub record Bucket : Type 0 where
  pub tokens : ℕ
  pub last_seen : ℕ

pub record Limiter : Type 0 where
  pub rate : ℕ
  pub burst : ℕ
  pub buckets : String → Option Bucket

abbrev pub new : ℕ → ℕ → Limiter
new rate burst = record { rate = rate; burst = burst; buckets = λ _. none }

abbrev pub capped : ℕ → ℕ → ℕ
capped cap tokens = if ltb cap tokens then cap else tokens

-- The tokens of a bucket at an instant.
abbrev pub refilled : Limiter → ℕ → Bucket → ℕ
refilled l now b = capped (l.burst * token) (b.tokens + l.rate * (now - b.last_seen))

-- l.buckets[key] = b
abbrev pub put : String → Bucket → (String → Option Bucket) → String → Option Bucket
put key b m k = if k == key then some b else m k

-- The bucket of the key, or a new one, which is full.
abbrev pub bucket_of : Limiter → ℕ → Option Bucket → Bucket
bucket_of l now none = record { tokens = l.burst * token; last_seen = now }
bucket_of l now (some b) = b

-- Take a token of those that are there: whether one was, and what is left.
abbrev pub taken : ℕ → Bool × ℕ
taken tokens = if ltb tokens token then (false, tokens) else (true, tokens - token)

unfoldable pub allow : Limiter → ℕ → String → Bool × Limiter
allow l now key =
    let (ok, left) = taken (refilled l now (bucket_of l now (l.buckets key))) in
    (ok, record l { buckets = put key (record { tokens = left; last_seen = now }) l.buckets })

abbrev tokens_of : Limiter → ℕ → Option Bucket → ℕ
tokens_of l now none = l.burst
tokens_of l now (some b) = refilled l now b / token

unfoldable pub remaining : Limiter → ℕ → String → ℕ
remaining l now key = tokens_of l now (l.buckets key)

-- Before(now - 5 minutes)
abbrev pub is_stale : ℕ → Bucket → Bool
is_stale now b = ltb (b.last_seen + 300 * token) now

abbrev kept : ℕ → Option Bucket → Option Bucket
kept now none = none
kept now (some b) = if is_stale now b then none else some b

unfoldable pub sweep : Limiter → ℕ → Limiter
sweep l now = record l { buckets = λ key. kept now (l.buckets key) }
