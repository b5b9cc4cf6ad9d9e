-- ===== src/Tests/Limits.antt =====
-- Runs of the rate limiter.
use vergo.Prelude.{◌+◌, ◌*◌, ◌≤◌, ◌≡◌, ◌↔◌, refl, true, List, [], ◌∷◌, arith}
use vergo.RateLimit.{Limiter, new, token, allow, remaining, sweep}
use vergo.RateLimit.Level.{level, allow_iff_remaining, level-sweep}
use vergo.RateLimit.Bound.{Event, elapsed, admitted, admitted_bound}

-- Two calls within a second and a tick between them.
abbrev events : List Event
events = Event.call 5 "ip:1" ∷ Event.tick 60 ∷ Event.call 7 "ip:1" ∷ Event.call 1 "ip:2" ∷ []

admitted_bound_example :
    token * admitted (new 20 1) 100 "ip:1" events ≤ token * 1 + 20 * elapsed events
admitted_bound_example = admitted_bound 20 1 100 "ip:1" events (omega arith)

-- Of the two calls, one is admitted.
admitted_one : admitted (new 20 1) 100 "ip:1" events ≡ 1
unfolding admitted allow sweep
admitted_one = refl

allow_iff_remaining_example :
    ((allow (new 20 1) 100 "ip:1").0 ≡ true) ↔ (1 ≤ remaining (new 20 1) 100 "ip:1")
allow_iff_remaining_example = allow_iff_remaining (new 20 1) 100 "ip:1"

-- A bucket that was used, and that a tick after 301 seconds drops.
abbrev used : Limiter
used = (allow (new 20 1) 0 "ip:1").1

level-sweep_example :
    level (sweep used (301 * token)) (301 * token) "ip:1" ≡ level used (301 * token) "ip:1"
unfolding allow
level-sweep_example = level-sweep used (301 * token) "ip:1" (omega arith)
