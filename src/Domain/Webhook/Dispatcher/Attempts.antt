-- ===== src/Domain/Webhook/Dispatcher/Attempts.antt =====
-- The tries of a delivery that are stored.
use vergo.Prelude.{
  ℕ, ◌+◌, ◌≤◌, String, ◌==◌, ◌≡◌, refl, Bool, true, false, none, some, List, [], ◌∷◌, ◌⊎◌, inl, inr,
  arith, eq_iff, All, take, subst, sym, Bool-cases, Option-cases, leb,
}
use vergo.Table.{find, select, update, count, order_by}
use vergo.Table.Laws.{All-map, All-both}
use vergo.Table.Orders.{count-order_by, count-take}
use vergo.Platform.{Platform}
use vergo.Db.{World, Err, Res, ok, err, Res-cases}
use vergo.Db.Rows.{WebhookDelivery, WebhookEndpoint}
use vergo.Repo.Webhooks.{
  PendingDelivery, is_pending, join_endpoints, get_pending_deliveries, mark_delivered, mark_retry,
  delivered_row, retry_row, due,
}
use vergo.Domain.Webhook.{deliver}
use vergo.Domain.Webhook.Dispatcher.{
  record_try, process_one, process_all, process_rows, process_pending, backoff,
}
use vergo.Domain.Webhook.Dispatcher.Sending.{process_all_next}

-- The primary key of the deliveries.
abbrev pub Distinct : List WebhookDelivery → Type 0
Distinct [] = Unit
Distinct (d ∷ ds) = (find (λ e. e.id == d.id) ds ≡ none) × Distinct ds

abbrev pub turns : String → List PendingDelivery → ℕ
turns id rs = count (λ r. r.id == id) rs

-- The tries of a delivery, with those that the rows still to come make.
abbrev Owed : List PendingDelivery → WebhookDelivery → Type 0
Owed rs d = d.attempts + turns d.id rs ≤ 5

abbrev one_if : Bool → ℕ
one_if true = 1
one_if false = 0

turns-join_endpoints :
    (id : String) (es : List WebhookEndpoint) (ds : List WebhookDelivery)
    → turns id (join_endpoints es ds) ≤ count (λ d. d.id == id) ds
unfolding join_endpoints count
turns-join_endpoints id es [] = omega arith
turns-join_endpoints id es (d ∷ ds) = elim (Option-cases (find (λ e. e.id == d.endpoint_id) es)) [
  | inl e ↦ ground (arith, turns-join_endpoints id es ds)
  | inr (x, e) ↦ ground (arith, turns-join_endpoints id es ds)
]

-- A row that is not in the rest is not counted there.
count_other :
    (q : WebhookDelivery → Bool) (id : String) (ds : List WebhookDelivery)
    → find (λ e. e.id == id) ds ≡ none
    → count (λ e. e.id == id) (select q ds) ≡ 0
unfolding find select count
count_other q id [] h = refl
count_other q id (d ∷ ds) h = ground (arith, count_other q id ds)

others :
    (id : String) (ds : List WebhookDelivery)
    → find (λ e. e.id == id) ds ≡ none
    → All (λ e. (e.id == id) ≡ false) ds
unfolding find
others id [] h = tt
others id (d ∷ ds) h = (ground arith, others id ds (ground arith))

-- Where the keys are distinct, a row is selected once if it is and never if it is not.
count_selected :
    (q : WebhookDelivery → Bool) (ds : List WebhookDelivery)
    → Distinct ds
    → All (λ d. count (λ e. e.id == d.id) (select q ds) ≤ one_if (q d)) ds
unfolding select count
count_selected q [] h = tt
count_selected q (d ∷ ds) h = (
  ground (arith, count_other q d.id ds h.0),
  All-map _ _ (λ e k. ground (arith, k, eq_iff e.id d.id, eq_iff d.id e.id)) ds
      (All-both _ _ ds (count_selected q ds h.1) (others d.id ds h.0)),
)

pending-Owed :
    (now limit : ℕ) (before : WebhookDelivery → WebhookDelivery → Bool) (es : List WebhookEndpoint)
    (ds : List WebhookDelivery)
    → Distinct ds
    → All (λ d. d.attempts ≤ 5) ds
    → All (Owed (take limit (join_endpoints es (order_by before (select (is_pending now) ds))))) ds
pending-Owed now limit before es ds h k =
    All-map _ _
      (λ d (a, b). ground (
        arith,
        a,
        b,
        count-take (λ r. r.id == d.id) limit
            (join_endpoints es (order_by before (select (is_pending now) ds))),
        turns-join_endpoints d.id es (order_by before (select (is_pending now) ds)),
        count-order_by (λ e. e.id == d.id) before (select (is_pending now) ds),
      ))
      ds (All-both _ _ ds k (count_selected (is_pending now) ds h))

-- A try uses up one turn of its row.
Owed-update :
    (r : PendingDelivery) (rs : List PendingDelivery) (f : WebhookDelivery → WebhookDelivery)
    (ds : List WebhookDelivery)
    → ((d : WebhookDelivery) → ((f d).id ≡ d.id) × ((f d).attempts ≡ d.attempts + 1))
    → All (Owed (r ∷ rs)) ds
    → All (Owed rs) (update (λ d. d.id == r.id) f ds)
unfolding update count
Owed-update r rs f [] h k = tt
Owed-update r rs f (d ∷ ds) h k = (
  elim (Bool-cases (d.id == r.id)) [
    | inl e ↦ rw e (
        subst (λ i. (f d).attempts + turns i rs ≤ 5) (sym (h d).0)
          (ground (arith, e, (h d).1, k.0, eq_iff d.id r.id, eq_iff r.id d.id)))
    | inr n ↦ rw n (ground (arith, n, k.0, eq_iff d.id r.id, eq_iff r.id d.id))
  ],
  Owed-update r rs f ds h k.1,
)

-- A row that is not tried keeps its turns.
Owed-weaken :
    (r : PendingDelivery) (rs : List PendingDelivery) (ds : List WebhookDelivery)
    → All (Owed (r ∷ rs)) ds
    → All (Owed rs) ds
unfolding count
Owed-weaken r rs ds = All-map _ _ (λ d k. ground (arith, k)) ds

-- The rows after a statement that failed or tried `r`.
either-Owed :
    (r : PendingDelivery) (rs : List PendingDelivery) (f : WebhookDelivery → WebhookDelivery)
    (ds new : List WebhookDelivery)
    → ((d : WebhookDelivery) → ((f d).id ≡ d.id) × ((f d).attempts ≡ d.attempts + 1))
    → All (Owed (r ∷ rs)) ds
    → (new ≡ ds) ⊎ (new ≡ update (λ d. d.id == r.id) f ds)
    → All (Owed rs) new
either-Owed r rs f ds new h k (inl e) = subst (All (Owed rs)) (sym e) (Owed-weaken r rs ds k)
either-Owed r rs f ds new h k (inr e) = subst (All (Owed rs)) (sym e) (Owed-update r rs f ds h k)

-- With no turns left to take, or none taken.
no_turns : (ds : List WebhookDelivery) → All (Owed []) ds → All (λ d. d.attempts ≤ 5) ds
unfolding count
no_turns ds = All-map _ _ (λ d k. ground (arith, k)) ds

module _ (p : Platform) where
  Owed-record_try :
      (r : PendingDelivery) (rs : List PendingDelivery) (x : Res Err (Unit {0})) (w : World)
      → All (Owed (r ∷ rs)) w.webhook_deliveries
      → All (Owed rs) (record_try p r x w).1.webhook_deliveries
  unfolding record_try mark_delivered mark_retry
  Owed-record_try r rs (ok x) w k =
      either-Owed r rs (delivered_row (some 200) none) w.webhook_deliveries _ (λ d. (refl, refl)) k
        (elim (Res-cases (mark_delivered r.id (some 200) none w).0) [
          | inl (a, e) ↦ inr (ground (arith, e))
          | inr (a, e) ↦ inl (ground (arith, e))
        ])
  Owed-record_try r rs (err e) w k =
      let due = w.now + backoff (r.attempts + 1) in
      either-Owed r rs (retry_row none (some (p.error_text e)) (some due)) w.webhook_deliveries _
        (λ d. (refl, refl)) k
        (elim (Res-cases (mark_retry r.id none (some (p.error_text e)) (some due) w).0) [
          | inl (a, e) ↦ inr (ground (arith, e))
          | inr (a, e) ↦ inl (ground (arith, e))
        ])

  same_deliveries :
      (r : PendingDelivery) (w : World)
      → (deliver p r.url r.secret r.event r.payload w).1.webhook_deliveries ≡ w.webhook_deliveries
  unfolding deliver
  same_deliveries r w = ground arith

  Owed-process_one :
      (r : PendingDelivery) (rs : List PendingDelivery) (w : World)
      → All (Owed (r ∷ rs)) w.webhook_deliveries
      → All (Owed rs) (process_one p r w).1.webhook_deliveries
  unfolding process_one
  Owed-process_one r rs w k =
      Owed-record_try r rs (deliver p r.url r.secret r.event r.payload w).0
        (deliver p r.url r.secret r.event r.payload w).1
        (subst (All (Owed (r ∷ rs))) (sym (same_deliveries r w)) k)

  Owed-process_all :
      (rs : List PendingDelivery) (w : World)
      → All (Owed rs) w.webhook_deliveries
      → All (Owed []) (process_all p rs w).1.webhook_deliveries
  unfolding process_all
  Owed-process_all [] w k = k
  Owed-process_all (r ∷ rs) w k =
      subst (λ (x : Res Err (Unit {0}) × World). All (Owed []) x.1.webhook_deliveries)
        (sym (process_all_next p r rs w))
        (Owed-process_all rs (process_one p r w).1 (Owed-process_one r rs w k))

  -- The rows that the query returned, or a failed query.
  Owed-process_rows :
      (rows : Res Err (List PendingDelivery)) (w : World)
      → All (λ d. d.attempts ≤ 5) w.webhook_deliveries
      → ((rs : List PendingDelivery) → rows ≡ ok rs → All (Owed rs) w.webhook_deliveries)
      → All (λ d. d.attempts ≤ 5) (process_rows p rows w).1.webhook_deliveries
  unfolding process_rows
  Owed-process_rows (ok rs) w k h = no_turns _ (Owed-process_all rs w (h rs refl))
  Owed-process_rows (err e) w k h = k

  get_pending-Owed :
      (w : World) (rs : List PendingDelivery)
      → Distinct w.webhook_deliveries
      → All (λ d. d.attempts ≤ 5) w.webhook_deliveries
      → (get_pending_deliveries 50 w).0 ≡ ok rs
      → All (Owed rs) w.webhook_deliveries
  unfolding get_pending_deliveries
  get_pending-Owed w rs h k e =
      subst (λ xs. All (Owed xs) w.webhook_deliveries) (ground (arith, e))
        (pending-Owed w.now 50 (λ a b. leb (due a) (due b)) w.webhook_endpoints w.webhook_deliveries
          h k)

  deliveries-get_pending :
      (w : World) → (get_pending_deliveries 50 w).1.webhook_deliveries ≡ w.webhook_deliveries
  unfolding get_pending_deliveries
  deliveries-get_pending w = ground arith

  -- Whatever the driver and the receivers do, a pass keeps the count of attempts that is stored of each
  -- delivery at five or less, where the identifiers are distinct. (A try that the driver fails to store
  -- is not counted.)
  pub attempts-process_pending :
      (w : World)
      → Distinct w.webhook_deliveries
      → All (λ d. d.attempts ≤ 5) w.webhook_deliveries
      → All (λ d. d.attempts ≤ 5) (process_pending p w).1.webhook_deliveries
  unfolding process_pending
  attempts-process_pending w h k =
      let same = sym (deliveries-get_pending w) in
      Owed-process_rows (get_pending_deliveries 50 w).0 (get_pending_deliveries 50 w).1
        (subst (All (λ d. d.attempts ≤ 5)) same k)
        (λ rs e. subst (All (Owed rs)) same (get_pending-Owed w rs h k e))
