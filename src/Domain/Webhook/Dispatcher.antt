-- ===== src/Domain/Webhook/Dispatcher.antt =====
-- internal/domain/webhook/dispatcher.go. The shift by the attempt does not overflow: a row that is
-- read was tried less than five times.
pub mod Sending
pub mod Attempts
pub mod Draining
pub mod Queue
pub mod Passes
use vergo.Prelude.{ℕ, ◌+◌, ◌*◌, ◌^◌, String, Option, none, some, List, [], ◌∷◌}
use vergo.Platform.{Platform}
use vergo.Db.{Act, Err, Res, ok, err, pure, gets, attempt, ignore, ◌>>=◌, ◌>>◌}
use vergo.Repo.Webhooks.{PendingDelivery, get_pending_deliveries, mark_delivered, mark_retry}
use vergo.Domain.Webhook.{deliver}
use vergo.Auth.Jwt.{minute}

abbrev pub backoff : ℕ → ℕ
backoff next_attempt = 2 ^ next_attempt * minute

module _ (p : Platform) where
  -- What is recorded of a try; the errors of the statements are dropped.
  unfoldable pub record_try : PendingDelivery → Res Err (Unit {0}) → Act Err (Unit {0})
  record_try r (ok x) = ignore (mark_delivered r.id (some 200) none)
  record_try r (err e) = do
    now ← gets (λ w. w.now)
    ignore (mark_retry r.id none (some (p.error_text e)) (some (now + backoff (r.attempts + 1))))

  unfoldable pub process_one : PendingDelivery → Act Err (Unit {0})
  process_one r = attempt (deliver p r.url r.secret r.event r.payload) >>= record_try r

  unfoldable pub process_all : List PendingDelivery → Act Err (Unit {0})
  process_all [] = pure tt
  process_all (r ∷ rs) = process_one r >> process_all rs

  -- A failed query is logged.
  unfoldable pub process_rows : Res Err (List PendingDelivery) → Act Err (Unit {0})
  process_rows (ok rows) = process_all rows
  process_rows (err e) = pure tt

  unfoldable pub process_pending : Act Err (Unit {0})
  process_pending = attempt (get_pending_deliveries 50) >>= process_rows
