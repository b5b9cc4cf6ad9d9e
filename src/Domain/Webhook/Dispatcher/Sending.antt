-- ===== src/Domain/Webhook/Dispatcher/Sending.antt =====
-- What a pass of the dispatcher sends.
use vergo.Prelude.{
  ℕ, String, Option, Bool, true, false, ◌*◌, ◌^◌, ◌&&◌, leb, Bool-cases, ◌+◌, ◌==◌, ◌≡◌, refl, ap,
  ◌∙◌, none, some, List, [], ◌∷◌, arith, if◌then◌else◌, inl, inr,
}
use vergo.Prelude.Text.{append}
use vergo.Table.{update}
use vergo.Platform.{Platform}
use vergo.Db.{World, WebhookRequest, Res, Err, ok, err, Res-cases}
use vergo.Repo.Webhooks.{
  PendingDelivery, get_pending_deliveries, mark_delivered, mark_retry, delivered_row, retry_row,
}
use vergo.Domain.Webhook.{deliver, send, sign, outcome, next_answer}
use vergo.Domain.Webhook.Dispatcher.{
  record_try, process_one, process_all, process_rows, process_pending, backoff,
}

module _ (p : Platform) where
  -- The request of a row: its signature is the HMAC of the payload under the endpoint's secret.
  abbrev request_of : PendingDelivery → WebhookRequest
  request_of r = record {
    url = r.url;
    event = r.event;
    signature = append "sha256=" (p.hmac_hex r.payload r.secret);
    body = r.payload;
  }

  -- The requests of the rows in the order in which they are sent, the newest first, on top of older ones.
  unfoldable pub requests : List PendingDelivery → List WebhookRequest → List WebhookRequest
  requests [] sent = sent
  requests (r ∷ rs) sent = requests rs (if p.request_ok r.url then request_of r ∷ sent else sent)

  outbox-record_try :
      (r : PendingDelivery) (x : Res Err (Unit {0})) (w : World)
      → (record_try p r x w).1.outbox ≡ w.outbox
  unfolding record_try mark_delivered mark_retry
  outbox-record_try r (ok x) w = ground arith
  outbox-record_try r (err e) w = ground arith

  outbox-process_one :
      (r : PendingDelivery) (w : World)
      → (process_one p r w).1.outbox
        ≡ (if p.request_ok r.url then request_of r ∷ w.outbox else w.outbox)
  unfolding process_one deliver sign
  outbox-process_one r w = ground (
    arith,
    outbox-record_try r (deliver p r.url r.secret r.event r.payload w).0
        (deliver p r.url r.secret r.event r.payload w).1,
  )

  -- A row's errors never stop the loop.
  pub process_one_goes_on : (r : PendingDelivery) (w : World) → (process_one p r w).0 ≡ ok tt
  unfolding process_one record_try
  process_one_goes_on r w = elim (Res-cases (deliver p r.url r.secret r.event r.payload w).0) [
    | inl (x, e) ↦ ground arith
    | inr (x, e) ↦ ground arith
  ]

  pub process_all_next :
      (r : PendingDelivery) (rs : List PendingDelivery) (w : World)
      → process_all p (r ∷ rs) w ≡ process_all p rs (process_one p r w).1
  unfolding process_all
  process_all_next r rs w = rw (process_one_goes_on r w)

  outbox-process_all :
      (rs : List PendingDelivery) (w : World) → (process_all p rs w).1.outbox ≡ requests rs w.outbox
  unfolding process_all requests
  outbox-process_all [] w = refl
  outbox-process_all (r ∷ rs) w =
      ap (λ v. v.1.outbox) (process_all_next r rs w)
      ∙ outbox-process_all rs (process_one p r w).1
      ∙ ap (requests rs) (outbox-process_one r w)

  outbox-get_pending : (w : World) → (get_pending_deliveries 50 w).1.outbox ≡ w.outbox
  unfolding get_pending_deliveries
  outbox-get_pending w = ground arith

  -- Whatever the driver and the receivers do, a pass sends each row that the query returned once, in
  -- their order, if its URL makes a request, signed with its endpoint's secret, and nothing else.
  pub outbox-process_pending :
      (rows : List PendingDelivery) (w : World)
      → (get_pending_deliveries 50 w).0 ≡ ok rows
      → (process_pending p w).1.outbox ≡ requests rows w.outbox
  unfolding process_pending process_rows
  outbox-process_pending rows w h =
      ground (arith, outbox-process_all rows (get_pending_deliveries 50 w).1, outbox-get_pending w)

-- The next answer is a status from 200 to 299.
abbrev pub is_accepted : List (Option ℕ) → Bool
is_accepted (some status ∷ later) = leb 200 status && leb status 299
is_accepted other = false

rejected :
    (answers : List (Option ℕ))
    → is_accepted answers ≡ false
    → (e : Err) × (outcome (next_answer answers) ≡ err e)
rejected [] h = (Err.http_error, refl)
rejected (none ∷ later) h = (Err.http_error, refl)
rejected (some status ∷ later) h = (Err.webhook_returned status, ground (arith, h))

module _ (p : Platform) (r : PendingDelivery) (w : World) (f : w.faults ≡ []) where
  pub process_one-update :
      (process_one p r w).1.webhook_deliveries
      ≡ (elim (deliver p r.url r.secret r.event r.payload w).0 [
        | ok x ↦ update (λ d. d.id == r.id) (delivered_row (some 200) none) w.webhook_deliveries
        | err e ↦
            update
              (λ d. d.id == r.id)
              (retry_row none (some (p.error_text e)) (some (w.now + backoff (r.attempts + 1))))
              w.webhook_deliveries
      ])
  unfolding process_one deliver record_try mark_delivered mark_retry
  process_one-update = ground arith

  -- With the statements answered, a row whose URL makes a request that is answered with a status from
  -- 200 to 299 is marked delivered with one more attempt; any other has one more attempt, and is due
  -- again 2^(attempts + 1) minutes of 60 * 10^9 nanoseconds after now. No other row changes.
  pub process_one_lem :
      (reason : String) × ((process_one p r w).1.webhook_deliveries
        ≡ update
            (λ d. d.id == r.id)
            (λ d.
              if p.request_ok r.url && is_accepted w.remote
              then record d {
                delivered = true;
                status_code = some 200;
                response = none;
                attempts = d.attempts + 1;
              }
              else record d {
                attempts = d.attempts + 1;
                status_code = none;
                response = some reason;
                next_retry = some (w.now + 2 ^ (r.attempts + 1) * (60 * 10 ^ 9));
              })
            w.webhook_deliveries)
  unfolding deliver send
  process_one_lem = elim (Bool-cases (p.request_ok r.url)) [
    | inl u ↦ elim (Bool-cases (is_accepted w.remote)) [
      | inl a ↦ ("", rw (process_one-update, u, a) (ground (arith, u, a)))
      | inr a ↦
          let (e, k) = rejected w.remote a in
          (p.error_text e, rw (process_one-update, u, a, k) refl)
    ]
    | inr u ↦ (p.error_text Err.request_error, ground (arith, u, process_one-update))
  ]
