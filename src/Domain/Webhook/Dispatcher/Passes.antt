-- ===== src/Domain/Webhook/Dispatcher/Passes.antt =====
-- Passes of the dispatcher, one after the other.
use vergo.Prelude.{
  ℕ, zero, suc, ◌*◌, Bool, Bool-cases, inl, inr, ◌+◌, ◌≤◌, ◌≡◌, refl, true, List, [], ◌∷◌, arith,
  All, subst, sym, ap, leb, length, holds, ◌||◌,
}
use vergo.Table.{select}
use vergo.Table.Laws.{All-map}
use vergo.Platform.{Platform}
use vergo.Db.{World, Res, Err}
use vergo.Db.Rows.{WebhookDelivery}
use vergo.Repo.Webhooks.{is_pending}
use vergo.Domain.Webhook.Dispatcher.{process_rows, process_pending, process_all}
use vergo.Domain.Webhook.Dispatcher.Draining.{
  Calm, Tried, Due, HasEndpoint, longest, served-process_all, kept-process_all,
}
use vergo.Auth.Jwt.{minute}
use vergo.Domain.Webhook.Dispatcher.Queue.{rows, get_pending_rows, rows-few, rows_served}

-- Passes that follow one another, each at most `gap` after the one before.
abbrev pub Steady : ℕ → ℕ → List ℕ → Type 0
Steady gap before [] = Unit
Steady gap before (now ∷ later) = (before ≤ now) × (now ≤ before + gap) × Steady gap now later

-- The last pass.
abbrev pub last : ℕ → List ℕ → ℕ
last before [] = before
last before (now ∷ later) = last now later

module _ (p : Platform) where
  -- A pass at the instant `now`.
  abbrev pub pass_at : ℕ → World → World
  pass_at now w = (process_pending p (record w { now = now })).1

  abbrev pub passes : List ℕ → World → World
  passes [] w = w
  passes (now ∷ later) w = passes later (pass_at now w)

  process_pending-rows :
      (now : ℕ) (w : World) (c : Calm now w) → process_pending p w ≡ process_all p (rows now w c) w
  unfolding process_pending process_rows
  process_pending-rows now w c = ap (λ x. process_rows p x.0 x.1) (get_pending_rows now w c)

  -- A pass when all are due: each is tried once more.
  pass-Tried :
      (k s now t : ℕ) (w : World)
      → s ≤ now
      → now + longest ≤ t
      → Due k now s t w
      → Tried (suc k) now t (process_pending p w).1
  pass-Tried k s now t w early late (c, a) =
      subst (λ (x : Res Err (Unit {0}) × World). Tried (suc k) now t x.1)
        (sym (process_pending-rows now w c))
        (served-process_all p k now t late (rows now w c) w c (rows-few now w c) (
          rows_served now w c k t
            (All-map _ _ (λ d h. ground (arith, h, early)) w.webhook_deliveries a)))

  -- A pass before that.
  pass-Due :
      (k s now t : ℕ) (w : World)
      → now + longest ≤ t
      → Due k now s t w
      → Due k now s t (process_pending p w).1
  pass-Due k s now t w late (c, a) =
      subst (λ (x : Res Err (Unit {0}) × World). Due k now s t x.1)
        (sym (process_pending-rows now w c))
        (kept-process_all p k now t late s (rows now w c) w c (rows-few now w c) a)

  -- The same deliveries, at a later instant.
  Due-later :
      (k before s now : ℕ) (w : World)
      → before ≤ now
      → Due k before s (before + longest) w
      → Due k now s (now + longest) (record w { now = now })
  Due-later k before s now w h (c, a) = (
    record { healthy = c.healthy; at = refl; few = c.few; endpoints = c.endpoints },
    All-map _ _ (λ d g. ground (arith, g, h)) w.webhook_deliveries a,
  )

  Tried-Due : (k now t : ℕ) (w : World) → Tried k now t w → Due k now t t w
  Tried-Due k now t w (c, a) = (c, All-map _ _ (λ d g. ground (arith, g)) w.webhook_deliveries a)

  abbrev is_settled : WebhookDelivery → Bool
  is_settled d = d.delivered || leb 5 d.attempts

  -- What is done stays done.
  passes-done :
      (before s : ℕ) (gap : ℕ) (later : List ℕ) (w : World)
      → Steady gap before later
      → Due 5 before s (before + longest) w
      → All (λ d. is_settled d ≡ true) (passes later w).webhook_deliveries
  passes-done before s gap [] w y (c, a) =
      All-map _ _ (λ d h. ground (arith, h)) w.webhook_deliveries a
  passes-done before s gap (now ∷ later) w (order, near, y) due =
      passes-done now s gap later (pass_at now w) y (
        pass-Due 5 s now (now + longest) (record w { now = now }) (omega arith)
          (Due-later 5 before s now w order due))

  pass_tried :
      (k before s now : ℕ) (w : World)
      → s ≤ now
      → before ≤ now
      → Due k before s (before + longest) w
      → Due (suc k) now (now + longest) (now + longest) (pass_at now w)
  pass_tried k before s now w h order due = Tried-Due (suc k) now (now + longest) (pass_at now w) (
      pass-Tried k s now (now + longest) (record w { now = now }) h (omega arith)
        (Due-later k before s now w order due))

  -- A pass sets the clock.
  passes_clock :
      (start : ℕ) (later : List ℕ) (w : World)
      → (passes later (record w { now = start })).webhook_deliveries
        ≡ (passes later w).webhook_deliveries
  passes_clock start [] w = refl
  passes_clock start (now ∷ later) w = refl

  -- With `left` tries to go behind the next one, the passes go on for as many delays.
  passes-settled :
      (gap left k before s : ℕ) (later : List ℕ) (w : World)
      → left + k ≡ 4
      → 1 ≤ gap
      → before ≤ s
      → Steady gap before later
      → s + left * (longest + gap) + gap ≤ last before later
      → Due k before s (before + longest) w
      → All (λ d. is_settled d ≡ true) (passes later w).webhook_deliveries
  passes-settled gap left k before s [] w e g b y end due = absurd (grind (arith, g, b, end))
  passes-settled gap zero k before s (now ∷ later) w e g b (order, near, y) end due =
      elim (Bool-cases (leb s now)) [
        | inr n ↦
            passes-settled gap zero k now s later (pass_at now w) e g (ground (arith, n)) y end (
              pass-Due k s now (now + longest) (record w { now = now }) (omega arith)
                (Due-later k before s now w order due))
        | inl h ↦ passes-done now (now + longest) gap later (pass_at now w) y (
            subst (λ n. Due n now (now + longest) (now + longest) (pass_at now w))
              (omega (arith, e)) (pass_tried k before s now w (ground (arith, h)) order due))
      ]
  passes-settled gap (suc m) k before s (now ∷ later) w e g b (order, near, y) end due =
      elim (Bool-cases (leb s now)) [
        | inr n ↦
            passes-settled gap (suc m) k now s later (pass_at now w) e g (ground (arith, n)) y end (
              pass-Due k s now (now + longest) (record w { now = now }) (omega arith)
                (Due-later k before s now w order due))
        | inl h ↦
            passes-settled gap m (suc k) now (now + longest) later (pass_at now w)
              (omega (arith, e)) g (omega arith) y (grind (arith, end, near, b))
              (pass_tried k before s now w (ground (arith, h)) order due)
      ]

  nothing_pending :
      (u : ℕ) (ds : List WebhookDelivery)
      → All (λ d. (d.delivered || leb 5 d.attempts) ≡ true) ds
      → select (is_pending u) ds ≡ []
  unfolding select
  nothing_pending u [] h = refl
  nothing_pending u (d ∷ ds) h = ground (arith, h.0, nothing_pending u ds h.1)

  -- While passes come at most `gap` apart, as the ticker's do, and go on for long enough, every delivery
  -- ends up delivered or tried five times or more, whatever the receivers answer, so that nothing is
  -- pending at any instant. Long enough is four times the longest delay of 32 minutes and a gap, and one
  -- more gap, counted from `start`, at which each delivery is due. The statements are answered, there
  -- are at most 50 deliveries, each with its endpoint, and none is added.
  pub passes_drain :
      (gap start : ℕ) (later : List ℕ) (w : World)
      → 1 ≤ gap
      → Steady gap start later
      → start + 4 * (32 * minute + gap) + gap ≤ last start later
      → w.faults ≡ []
      → length w.webhook_deliveries ≤ 50
      → All (HasEndpoint w.webhook_endpoints) w.webhook_deliveries
      → All (λ d. holds (λ s. leb s start) d.next_retry ≡ true) w.webhook_deliveries
      → All (λ d. (d.delivered || leb 5 d.attempts) ≡ true) (passes later w).webhook_deliveries
        × ((u : ℕ) → select (is_pending u) (passes later w).webhook_deliveries ≡ [])
  passes_drain gap start later w g y end f few es due =
      let settled = subst (All (λ d. is_settled d ≡ true)) (passes_clock start later w) (
        passes-settled gap 4 0 start start later (record w { now = start }) refl g (omega arith) y
          end
          (
            record { healthy = f; at = refl; few = few; endpoints = es },
            All-map _ _ (λ d h. ground (arith, h)) w.webhook_deliveries due,
          )) in
      (settled, λ u. nothing_pending u (passes later w).webhook_deliveries settled)
