-- ===== src/RateLimit/Bound.antt =====
-- How many calls of a run the limiter of internal/pkg/ratelimit/limiter.go admits.
use vergo.Prelude.{
  ℕ, ◌+◌, ◌*◌, ◌≤◌, String, ◌==◌, Bool, true, false, List, [], ◌∷◌, ◌&&◌, arith, eq_iff, Bool-cases,
  inl, inr,
}
use vergo.RateLimit.{Limiter, token, allow, sweep, new}
use vergo.RateLimit.Level.{
  level, level_wait, level-allow, level-allow_other, level-sweep, rate-allow, rate-sweep,
}

-- What happens to a limiter, each after a wait: a call for a key, or a tick of the clean-up.
pub data Event : Type 0 where
  call : ℕ → String → Event
  tick : ℕ → Event

abbrev pub elapsed : List Event → ℕ
elapsed [] = 0
elapsed (Event.call d k ∷ es) = d + elapsed es
elapsed (Event.tick d ∷ es) = d + elapsed es

abbrev one_if : Bool → ℕ
one_if true = 1
one_if false = 0

-- The calls for a key that are admitted in a run that starts at `now`.
unfoldable pub admitted : Limiter → ℕ → String → List Event → ℕ
admitted l now key [] = 0
admitted l now key (Event.call d k ∷ es) =
    let (ok, l') = allow l (now + d) k in
    let rest = admitted l' (now + d) key es in one_if (ok && (key == k)) + rest
admitted l now key (Event.tick d ∷ es) = admitted (sweep l (now + d)) (now + d) key es

admitted-level :
    (l : Limiter) (now : ℕ) (key : String) (es : List Event)
    → l.burst ≤ 300 * l.rate
    → token * admitted l now key es ≤ level l now key + l.rate * elapsed es
unfolding admitted
admitted-level l now key [] h = omega arith
admitted-level l now key (Event.tick d ∷ es) h =
    let ih =
      admitted-level (sweep l (now + d)) (now + d) key es
        (ground (arith, rate-sweep l (now + d))) in
    ground
      (arith, ih, rate-sweep l (now + d), level-sweep l (now + d) key h, level_wait l now d key)
admitted-level l now key (Event.call d k ∷ es) h =
    let ih =
      admitted-level (allow l (now + d) k).1 (now + d) key es
        (ground (arith, rate-allow l (now + d) k)) in
    elim (Bool-cases (key == k)) [
      | inl e ↦
          let same = level_wait l now d key in
          ground
            (arith, ih, e, rate-allow l (now + d) k, level-allow l (now + d) k, eq_iff key k, same)
      | inr n ↦ ground (
        arith,
        ih,
        n,
        rate-allow l (now + d) k,
        level-allow_other l (now + d) (now + d) k key,
        eq_iff key k,
        level_wait l now d key,
      )
    ]

-- A limiter that starts empty admits, for each key, `burst` calls and `rate` more for each second
-- that the run takes, at most, whatever the other keys do and whenever the clean-up ticks, if a
-- bucket is full again within the five minutes after which the clean-up drops it.
pub admitted_bound :
    (rate burst now : ℕ) (key : String) (es : List Event)
    → burst ≤ 300 * rate
    → token * admitted (new rate burst) now key es ≤ token * burst + rate * elapsed es
unfolding level
admitted_bound rate burst now key es h =
    ground (arith, admitted-level (new rate burst) now key es h)
