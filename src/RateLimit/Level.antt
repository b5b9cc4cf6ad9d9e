-- ===== src/RateLimit/Level.antt =====
-- The level of a key: the tokens, in units, that its bucket holds at an instant, a missing bucket
-- being full. It is what the two operations and the sweep of internal/pkg/ratelimit/limiter.go change.
use vergo.Prelude.{
  ℕ, ◌+◌, ◌-◌, ◌*◌, ◌≤◌, String, ◌≡◌, ◌≢◌, ◌↔◌, refl, Bool, true, false, Option, none, some, arith,
  eq_iff, eq_refl, Option-cases, inl, inr,
}
use native.Mathlib.Nat.{mul-le-mul_left}
use vergo.RateLimit.{Bucket, Limiter, token, refilled, allow, remaining, sweep}

abbrev level_of : Limiter → ℕ → Option Bucket → ℕ
level_of l now none = l.burst * token
level_of l now (some b) = refilled l now b

unfoldable pub level : Limiter → ℕ → String → ℕ
level l now key = level_of l now (l.buckets key)

-- What a call of `allow` uses up.
abbrev pub spent : Bool → ℕ
spent true = token
spent false = 0

mul_wait : (r t d s : ℕ) → r * ((t + d) - s) ≤ r * (t - s) + r * d
mul_wait r t d s =
    ground (arith, mul-le-mul_left {m = (t + d) - s} {n = (t - s) + d} r (omega arith))

-- In a time d the level grows by rate × d at most.
pub level_wait :
    (l : Limiter) (now d : ℕ) (key : String) → level l (now + d) key ≤ level l now key + l.rate * d
unfolding level
level_wait l now d key = elim (Option-cases (l.buckets key)) [
  | inl e ↦ ground arith
  | inr (b, e) ↦ ground (arith, mul_wait l.rate now d b.last_seen)
]

-- A call takes what it admits from its key's level.
pub level-allow :
    (l : Limiter) (now : ℕ) (key : String)
    → level (allow l now key).1 now key + spent (allow l now key).0 ≡ level l now key
unfolding level allow
level-allow l now key = elim (Option-cases (l.buckets key)) [
  | inl e ↦ ground (arith, eq_refl key)
  | inr (b, e) ↦ ground (arith, eq_refl key)
]

-- A call for one key leaves the tokens of every other key as they are, at every instant.
pub level-allow_other :
    (l : Limiter) (now t : ℕ) (key other : String)
    → other ≢ key
    → level (allow l now key).1 t other ≡ level l t other
unfolding level allow
level-allow_other l now t key other h = ground (arith, eq_iff other key)

-- A sweep changes the tokens of no key at its instant, if a bucket is full again after the five
-- minutes after which the sweep drops it.
pub level-sweep :
    (l : Limiter) (now : ℕ) (key : String)
    → l.burst ≤ 300 * l.rate
    → level (sweep l now) now key ≡ level l now key
unfolding level sweep
level-sweep l now key h = elim (Option-cases (l.buckets key)) [
  | inl e ↦ ground arith
  | inr (b, e) ↦ ground (arith, mul-le-mul_left {m = 300 * token} {n = now - b.last_seen} l.rate)
]

-- A call is admitted exactly when `remaining` would have reported a token at that instant.
pub allow_iff_remaining :
    (l : Limiter) (now : ℕ) (key : String)
    → ((allow l now key).0 ≡ true) ↔ (1 ≤ remaining l now key)
unfolding allow remaining
allow_iff_remaining l now key = elim (Option-cases (l.buckets key)) [
  | inl e ↦ (λ h. ground arith, λ h. ground arith)
  | inr (b, e) ↦ (λ h. ground arith, λ h. ground arith)
]

pub rate-allow :
    (l : Limiter) (now : ℕ) (key : String)
    → ((allow l now key).1.rate ≡ l.rate) × ((allow l now key).1.burst ≡ l.burst)
unfolding allow
rate-allow l now key = (refl, refl)

pub rate-sweep :
    (l : Limiter) (now : ℕ) → ((sweep l now).rate ≡ l.rate) × ((sweep l now).burst ≡ l.burst)
unfolding sweep
rate-sweep l now = (refl, refl)
