-- ===== src/Domain/Webhook/Dispatcher/Queue.antt =====
-- The rows that a pass reads: every pending delivery is one of them.
use vergo.Prelude.{
  ℕ, suc, ◌||◌, ◌≤◌, String, ◌==◌, ◌≡◌, refl, Bool, true, List, [], ◌∷◌, inl, inr, arith, eq_refl,
  All, Bool-cases, Option-cases, leb, length, take,
}
use vergo.Table.{find, select, count, order_by}
use vergo.Table.Laws.{All-map, All-both, All-select}
use vergo.Table.Orders.{count-order_by, length-order_by, length-select, take_all, All-order_by}
use vergo.Db.{World, ok}
use vergo.Db.Rows.{WebhookDelivery, WebhookEndpoint}
use vergo.Repo.Webhooks.{PendingDelivery, is_pending, join_endpoints, get_pending_deliveries, due}
use vergo.Domain.Webhook.Dispatcher.Attempts.{turns}
use vergo.Domain.Webhook.Dispatcher.Draining.{Calm, HasEndpoint, is_waiting, is_served}

module _ (es : List WebhookEndpoint) where
  turns-join_endpoints :
      (id : String) (ds : List WebhookDelivery)
      → All (HasEndpoint es) ds
      → turns id (join_endpoints es ds) ≡ count (λ d. d.id == id) ds
  unfolding join_endpoints count
  turns-join_endpoints id [] h = refl
  turns-join_endpoints id (d ∷ ds) h = elim (Option-cases (find (λ e. e.id == d.endpoint_id) es)) [
    | inl e ↦ absurd (ground (arith, h.0, e))
    | inr (x, e) ↦ ground (arith, turns-join_endpoints id ds h.1)
  ]

  length-join_endpoints : (ds : List WebhookDelivery) → length (join_endpoints es ds) ≤ length ds
  unfolding join_endpoints
  length-join_endpoints [] = omega arith
  length-join_endpoints (d ∷ ds) = elim (Option-cases (find (λ e. e.id == d.endpoint_id) es)) [
    | inl e ↦ ground (arith, length-join_endpoints ds)
    | inr (x, e) ↦ ground (arith, length-join_endpoints ds)
  ]

  join_endpoints-few :
      (ds : List WebhookDelivery)
      → All (λ d. d.attempts ≤ 4) ds
      → All (λ (r : PendingDelivery). r.attempts ≤ 4) (join_endpoints es ds)
  unfolding join_endpoints
  join_endpoints-few [] h = tt
  join_endpoints-few (d ∷ ds) h = elim (Option-cases (find (λ e. e.id == d.endpoint_id) es)) [
    | inl e ↦ rw e (join_endpoints-few ds h.1)
    | inr (x, e) ↦ rw e (h.0, join_endpoints-few ds h.1)
  ]

selected :
    (q : WebhookDelivery → Bool) (ds : List WebhookDelivery)
    → All (λ d. q d ≡ true → 1 ≤ count (λ e. e.id == d.id) (select q ds)) ds
unfolding select count
selected q [] = tt
selected q (d ∷ ds) = (
  λ h. ground (arith, h, eq_refl d.id),
  All-map _ _ (λ e k h. ground (arith, k h)) ds (selected q ds),
)

select_holds :
    (q : WebhookDelivery → Bool) (ds : List WebhookDelivery) → All (λ d. q d ≡ true) (select q ds)
unfolding select
select_holds q [] = tt
select_holds q (d ∷ ds) = elim (Bool-cases (q d)) [
  | inl e ↦ rw e (e, select_holds q ds)
  | inr e ↦ rw e (select_holds q ds)
]

module _ (now : ℕ) (w : World) (c : Calm now w) where
  abbrev chosen : List WebhookDelivery
  chosen = order_by (λ a b. leb (due a) (due b)) (select (is_pending now) w.webhook_deliveries)

  abbrev pub rows : List PendingDelivery
  rows = join_endpoints w.webhook_endpoints chosen

  chosen-endpoints : All (HasEndpoint w.webhook_endpoints) chosen
  chosen-endpoints =
      All-order_by _ _ _ (All-select _ (is_pending now) w.webhook_deliveries c.endpoints)

  rows_all : take 50 rows ≡ rows
  rows_all = take_all 50 rows (
      omega (
        arith,
        length-join_endpoints w.webhook_endpoints chosen,
        length-order_by (λ a b. leb (due a) (due b)) (select (is_pending now) w.webhook_deliveries),
        length-select (is_pending now) w.webhook_deliveries,
        c.few,
      ))

  pub get_pending_rows : get_pending_deliveries 50 w ≡ (ok rows, w)
  unfolding get_pending_deliveries
  get_pending_rows = ground (arith, c.healthy, c.at, rows_all)

  pub rows-few : All (λ r. r.attempts ≤ 4) rows
  rows-few = join_endpoints-few w.webhook_endpoints chosen (
      All-order_by _ _ _ (
        All-map _ _ (λ d h. ground (arith, h)) _
          (select_holds (is_pending now) w.webhook_deliveries)))

  pub rows_served :
      (k t : ℕ)
      → All (λ d. (is_waiting (suc k) t d || is_waiting k now d) ≡ true) w.webhook_deliveries
      → All (λ d. is_served k t rows d ≡ true) w.webhook_deliveries
  rows_served k t a =
      All-map _ _
        (λ d (h, g). elim (Bool-cases (is_pending now d)) [
          | inl e ↦ ground (
            arith,
            h,
            g e,
            turns-join_endpoints w.webhook_endpoints d.id chosen chosen-endpoints,
            count-order_by (λ x. x.id == d.id) (λ a b. leb (due a) (due b))
                (select (is_pending now) w.webhook_deliveries),
          )
          | inr e ↦ ground (arith, h, e)
        ])
        w.webhook_deliveries
        (All-both _ _ w.webhook_deliveries a (selected (is_pending now) w.webhook_deliveries))
