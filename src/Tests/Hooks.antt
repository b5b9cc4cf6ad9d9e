-- ===== src/Tests/Hooks.antt =====
-- Runs of the webhook dispatcher on the sample world.
use vergo.Prelude.{
  ℕ, zero, suc, String, ◌*◌, ◌||◌, ◌&&◌, ◌^◌, if◌then◌else◌, true, leb, List, ◌+◌, ◌≤◌, ◌==◌, ◌≡◌,
  refl, none, some, [], ◌∷◌, All, arith,
}
use vergo.Table.{find, select, update, order_by}
use vergo.Repo.Webhooks.{PendingDelivery, is_pending, get_pending_deliveries, join_endpoints}
use vergo.Domain.Webhook.{dispatch}
use vergo.Domain.Webhook.Matching.{dispatch-lists_event}
use vergo.Domain.Webhook.Dispatcher.{process_pending, process_one}
use vergo.Domain.Webhook.Dispatcher.Sending.{
  requests, outbox-process_pending, is_accepted, process_one_lem,
}
use vergo.Domain.Webhook.Dispatcher.Passes.{Steady, last, passes, passes_drain}
use vergo.Auth.Jwt.{second}
use vergo.Domain.Webhook.Dispatcher.Attempts.{attempts-process_pending}
use vergo.Tests.Sample.{platform, world}

abbrev d1 : PendingDelivery
d1 = record {
  id = "d1";
  endpoint_id = "e1";
  event = "project.created";
  payload = "{}";
  attempts = 0;
  url = "https://x";
  secret = "s";
}

attempts-process_pending_example :
    All (λ d. d.attempts ≤ 5) (process_pending platform world).1.webhook_deliveries
unfolding find
attempts-process_pending_example =
    attempts-process_pending platform world (refl, tt) (omega arith, tt)

outbox-process_pending_example :
    (process_pending platform world).1.outbox ≡ requests platform (d1 ∷ []) []
unfolding get_pending_deliveries find select order_by join_endpoints
outbox-process_pending_example = outbox-process_pending platform (d1 ∷ []) world refl

-- The receiver answers nothing.
process_one_example :
    (reason : String) × ((process_one platform d1 world).1.webhook_deliveries
      ≡ update
          (λ d. d.id == "d1")
          (λ d.
            if platform.request_ok "https://x" && is_accepted world.remote
            then record d {
              delivered = true;
              status_code = some 200;
              response = none;
              attempts = d.attempts + 1;
            }
            else record d {
              attempts = d.attempts + 1;
              status_code = none;
              response = some reason;
              next_retry = some (100 + 2 ^ 1 * (60 * 10 ^ 9));
            })
          world.webhook_deliveries)
process_one_example = process_one_lem platform d1 world refl

dispatch-lists_event_example :
    (dispatch platform "acme" "project.created" "{}" world).1.db ≡ world.db
dispatch-lists_event_example =
    dispatch-lists_event platform "acme" "project.created" "{}" world (refl, tt)

-- The ticks of every 30 seconds.
abbrev tick : ℕ
tick = 30 * second

abbrev ticks : ℕ → ℕ → List ℕ
ticks before zero = []
ticks before (suc n) = (before + tick) ∷ ticks (before + tick) n

ticks-Steady : (n before : ℕ) → Steady tick before (ticks before n)
ticks-Steady zero before = tt
ticks-Steady (suc n) before = (omega arith, omega arith, ticks-Steady n (before + tick))

last-ticks : (n before : ℕ) → last before (ticks before n) ≡ before + n * tick
last-ticks zero before = omega arith
last-ticks (suc n) before = grind (arith, last-ticks n (before + tick))

-- Two hours and eleven minutes of ticks: the sample world's one delivery is never answered.
abbrev evening : List ℕ
evening = ticks 100 262

passes_drain_example :
    All
      (λ d. (d.delivered || leb 5 d.attempts) ≡ true)
      (passes platform evening world).webhook_deliveries
    × ((u : ℕ) → select (is_pending u) (passes platform evening world).webhook_deliveries ≡ [])
unfolding find
passes_drain_example =
    passes_drain platform tick 100 evening world (omega arith) (ticks-Steady 262 100)
      (omega (arith, last-ticks 262 100)) refl (omega arith) (refl, tt) (refl, tt)
