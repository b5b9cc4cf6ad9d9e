-- ===== src/Domain/Webhook/Dispatcher/Draining.antt =====
-- That the dispatcher is done with every delivery some time.
use vergo.Prelude.{
  ℕ, zero, suc, ◌+◌, ◌*◌, ◌≤◌, ◌==◌, ◌≡◌, refl, Bool, true, none, some, List, [], ◌∷◌, inl, inr,
  arith, eq_iff, All, subst, sym, leb, ◌&&◌, ◌||◌, length, is_some, ap, holds,
}
use vergo.Table.{find, update, count}
use vergo.Table.Laws.{All-update, All-map}
use vergo.Platform.{Platform}
use vergo.Auth.Jwt.{minute}
use vergo.Db.{World, Res, Err, Res-cases}
use vergo.Db.Rows.{WebhookDelivery, WebhookEndpoint}
use vergo.Repo.Webhooks.{PendingDelivery, delivered_row, retry_row, mark_delivered, mark_retry}
use vergo.Domain.Webhook.{deliver}
use vergo.Domain.Webhook.Dispatcher.{record_try, process_one, process_all, backoff}
use vergo.Domain.Webhook.Dispatcher.Attempts.{turns}
use vergo.Domain.Webhook.Dispatcher.Sending.{process_all_next, process_one-update}

-- Delivered, or given up, or tried k times and due at t.
abbrev pub is_waiting : ℕ → ℕ → WebhookDelivery → Bool
is_waiting k t d =
    d.delivered || leb 5 d.attempts || leb k d.attempts && holds (λ s. leb s t) d.next_retry

-- In a pass, where the rows `rs` are still to come: either it was tried in the pass, or it is to be.
abbrev pub is_served : ℕ → ℕ → List PendingDelivery → WebhookDelivery → Bool
is_served k t rs d = is_waiting (suc k) t d || leb k d.attempts && leb 1 (turns d.id rs)

-- The delay after the last try.
abbrev pub longest : ℕ
longest = 32 * minute

backoff_bound : (n : ℕ) → n ≤ 5 → backoff n ≤ longest
backoff_bound zero h = omega arith
backoff_bound (suc zero) h = omega arith
backoff_bound (suc (suc zero)) h = omega arith
backoff_bound (suc (suc (suc zero))) h = omega arith
backoff_bound (suc (suc (suc (suc zero)))) h = omega arith
backoff_bound (suc (suc (suc (suc (suc zero))))) h = omega arith
backoff_bound (suc (suc (suc (suc (suc (suc n)))))) h = absurd (omega (arith, h))

served-update :
    (k t : ℕ) (r : PendingDelivery) (rs : List PendingDelivery)
    (f : WebhookDelivery → WebhookDelivery) (ds : List WebhookDelivery)
    → ((d : WebhookDelivery) → leb k d.attempts ≡ true → is_waiting (suc k) t (f d) ≡ true)
    → ((d : WebhookDelivery) → is_waiting (suc k) t d ≡ true → is_waiting (suc k) t (f d) ≡ true)
    → All (λ d. is_served k t (r ∷ rs) d ≡ true) ds
    → All (λ d. is_served k t rs d ≡ true) (update (λ d. d.id == r.id) f ds)
unfolding update count
served-update k t r rs f [] h g a = tt
served-update k t r rs f (d ∷ ds) h g a = (
  ground (arith, a.0, h d, g d, eq_iff r.id d.id, eq_iff d.id r.id),
  served-update k t r rs f ds h g a.1,
)

length-update :
    (q : WebhookDelivery → Bool) (f : WebhookDelivery → WebhookDelivery) (ds : List WebhookDelivery)
    → length (update q f ds) ≡ length ds
unfolding update
length-update q f [] = refl
length-update q f (d ∷ ds) = ap suc (length-update q f ds)

-- The delivery has an endpoint, as the foreign key demands.
abbrev pub HasEndpoint : List WebhookEndpoint → WebhookDelivery → Type 0
HasEndpoint es d = is_some (find (λ e. e.id == d.endpoint_id) es) ≡ true

-- What a pass needs: the statements are answered, and the deliveries fit in one query.
pub record Calm (now : ℕ) (w : World) : Type 0 where
  pub healthy : w.faults ≡ []
  pub at : w.now ≡ now
  pub few : length w.webhook_deliveries ≤ 50
  pub endpoints : All (HasEndpoint w.webhook_endpoints) w.webhook_deliveries

Calm-update :
    (now : ℕ) (q : WebhookDelivery → Bool) (f : WebhookDelivery → WebhookDelivery) (w v : World)
    → ((d : WebhookDelivery) → (f d).endpoint_id ≡ d.endpoint_id)
    → Calm now w
    → v.faults ≡ w.faults
    → v.now ≡ w.now
    → v.webhook_endpoints ≡ w.webhook_endpoints
    → v.webhook_deliveries ≡ update q f w.webhook_deliveries
    → Calm now v
Calm-update now q f w v same c a b e d = record {
  healthy = ground (arith, a, c.healthy);
  at = ground (arith, b, c.at);
  few = ground (arith, d, length-update q f w.webhook_deliveries, c.few);
  endpoints =
      subst (λ (x : List WebhookEndpoint × List WebhookDelivery). All (HasEndpoint x.0) x.1)
        (ground (arith, e, d))
        (All-update (HasEndpoint w.webhook_endpoints) q f w.webhook_deliveries
          (λ x h g.
            subst (λ i. is_some (find (λ e. e.id == i) w.webhook_endpoints) ≡ true) (sym (same x))
              g)
          c.endpoints);
}

module _ (p : Platform) (now : ℕ) (r : PendingDelivery) (w : World) (c : Calm now w) where
  rest-process_one :
      ((process_one p r w).1.faults ≡ w.faults)
      × ((process_one p r w).1.now ≡ w.now)
      × ((process_one p r w).1.webhook_endpoints ≡ w.webhook_endpoints)
  unfolding process_one deliver record_try mark_delivered mark_retry
  rest-process_one =
      (ground (arith, c.healthy), ground (arith, c.healthy), ground (arith, c.healthy))

  Calm-process_one : Calm now (process_one p r w).1
  Calm-process_one =
      let (a, b, e) = rest-process_one in
      elim (Res-cases (deliver p r.url r.secret r.event r.payload w).0) [
        | inl (x, h) ↦
            Calm-update now (λ d. d.id == r.id) (delivered_row (some 200) none) w _ (λ d. refl) c a
              b e (ground (arith, process_one-update p r w c.healthy, h))
        | inr (x, h) ↦
            Calm-update now (λ d. d.id == r.id)
              (retry_row none (some (p.error_text x)) (some (w.now + backoff (r.attempts + 1)))) w _
              (λ d. refl) c a b e (ground (arith, process_one-update p r w c.healthy, h))
      ]

-- Every delivery was tried k times or is done.
abbrev pub Tried : ℕ → ℕ → ℕ → World → Type 0
Tried k now t w = Calm now w × All (λ d. is_waiting k t d ≡ true) w.webhook_deliveries

-- Every delivery is done, or was tried k times and is due at s, or was tried once more and is due at t.
abbrev pub Due : ℕ → ℕ → ℕ → ℕ → World → Type 0
Due k now s t w =
    Calm now w × All (λ d. (is_waiting (suc k) t d || is_waiting k s d) ≡ true) w.webhook_deliveries

module _ (p : Platform) (k now t : ℕ) (late : now + longest ≤ t) where
  served-process_one :
      (r : PendingDelivery) (rs : List PendingDelivery) (w : World)
      → w.faults ≡ []
      → w.now ≡ now
      → r.attempts ≤ 4
      → All (λ d. is_served k t (r ∷ rs) d ≡ true) w.webhook_deliveries
      → All (λ d. is_served k t rs d ≡ true) (process_one p r w).1.webhook_deliveries
  served-process_one r rs w f n b a =
      elim (Res-cases (deliver p r.url r.secret r.event r.payload w).0) [
        | inl (x, e) ↦
            subst (All (λ d. is_served k t rs d ≡ true))
              (ground (arith, process_one-update p r w f, e))
              (served-update k t r rs (delivered_row (some 200) none) w.webhook_deliveries
                (λ d h. refl) (λ d h. refl) a)
        | inr (x, e) ↦
            subst (All (λ d. is_served k t rs d ≡ true))
              (ground (arith, process_one-update p r w f, e))
              (served-update k t r rs
                (retry_row none (some (p.error_text x)) (some (w.now + backoff (r.attempts + 1))))
                w.webhook_deliveries
                (λ d h.
                  ground (arith, h, n, late, backoff_bound (r.attempts + 1) (omega (arith, b))))
                (λ d h.
                  ground (arith, h, n, late, backoff_bound (r.attempts + 1) (omega (arith, b))))
                a)
      ]

  -- A pass before `s`: what was not tried in it is still due at `s`.
  kept-process_one :
      (s : ℕ) (r : PendingDelivery) (w : World)
      → w.faults ≡ []
      → w.now ≡ now
      → r.attempts ≤ 4
      → All (λ d. (is_waiting (suc k) t d || is_waiting k s d) ≡ true) w.webhook_deliveries
      → All
          (λ d. (is_waiting (suc k) t d || is_waiting k s d) ≡ true)
          (process_one p r w).1.webhook_deliveries
  kept-process_one s r w f n b a =
      elim (Res-cases (deliver p r.url r.secret r.event r.payload w).0) [
        | inl (x, e) ↦
            subst (All (λ d. (is_waiting (suc k) t d || is_waiting k s d) ≡ true))
              (ground (arith, process_one-update p r w f, e))
              (All-update (λ d. (is_waiting (suc k) t d || is_waiting k s d) ≡ true)
                (λ d. d.id == r.id) (delivered_row (some 200) none) w.webhook_deliveries
                (λ d q h. refl) a)
        | inr (x, e) ↦
            subst (All (λ d. (is_waiting (suc k) t d || is_waiting k s d) ≡ true))
              (ground (arith, process_one-update p r w f, e))
              (All-update (λ d. (is_waiting (suc k) t d || is_waiting k s d) ≡ true)
                (λ d. d.id == r.id)
                (retry_row none (some (p.error_text x)) (some (w.now + backoff (r.attempts + 1))))
                w.webhook_deliveries
                (λ d q h.
                  ground (arith, h, n, late, backoff_bound (r.attempts + 1) (omega (arith, b))))
                a)
      ]

  pub kept-process_all :
      (s : ℕ) (rs : List PendingDelivery) (w : World)
      → Calm now w
      → All (λ r. r.attempts ≤ 4) rs
      → All (λ d. (is_waiting (suc k) t d || is_waiting k s d) ≡ true) w.webhook_deliveries
      → Due k now s t (process_all p rs w).1
  unfolding process_all
  kept-process_all s [] w c b a = (c, a)
  kept-process_all s (r ∷ rs) w c b a =
      subst (λ (x : Res Err (Unit {0}) × World). Due k now s t x.1)
        (sym (process_all_next p r rs w))
        (kept-process_all s rs (process_one p r w).1 (Calm-process_one p now r w c) b.1
          (kept-process_one s r w c.healthy c.at b.0 a))

  pub served-process_all :
      (rs : List PendingDelivery) (w : World)
      → Calm now w
      → All (λ r. r.attempts ≤ 4) rs
      → All (λ d. is_served k t rs d ≡ true) w.webhook_deliveries
      → Tried (suc k) now t (process_all p rs w).1
  unfolding process_all count
  served-process_all [] w c b a = (c, All-map _ _ (λ d h. ground (arith, h)) w.webhook_deliveries a)
  served-process_all (r ∷ rs) w c b a =
      subst (λ (x : Res Err (Unit {0}) × World). Tried (suc k) now t x.1)
        (sym (process_all_next p r rs w))
        (served-process_all rs (process_one p r w).1 (Calm-process_one p now r w c) b.1
          (served-process_one r rs w c.healthy c.at b.0 a))
