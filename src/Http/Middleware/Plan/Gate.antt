-- ===== src/Http/Middleware/Plan/Gate.antt =====
-- Whom the check of the plan admits, and what Stripe's events do to it.
use vergo.Prelude.{
  String, ◌==◌, ◌≡◌, ◌↔◌, ◌≤◌, refl, true, Option, none, some, [], arith, inl, inr, Option-cases,
  Bool,
}
use vergo.Table.{find}
use vergo.Table.Laws.{find-update}
use vergo.Platform.{Platform}
use vergo.Db.{World, ok}
use vergo.Db.Rows
use vergo.Repo.Subscriptions.{has_stripe_id}
use vergo.Http.Gin.{Context, serve, org_id}
use vergo.Http.Middleware.Plan.{plan_order, require_plan}
use vergo.Http.Handlers.Billing.{
  StripeEvent, StripeSubscription, webhook, plan_of_status, at_second,
}

-- The plan of an organization's subscription: without one it is "free".
abbrev pub plan_of : Option Rows.Subscription → String
plan_of none = "free"
plan_of (some s) = s.plan

abbrev pub of_org : String → Rows.Subscription → Bool
of_org oid s = s.org_id == oid

module _ (min_plan oid : String) (c : Context) (o : org_id c ≡ some oid) where
  -- With the statement answered, the check passes exactly when the plan of the organization's
  -- subscription is at least as high as the one asked for; the status and the end of the period do
  -- not count.
  require_plan_iff :
      (w : World)
      → w.faults ≡ []
      → ((require_plan min_plan c w).0 ≡ ok c)
        ↔ (plan_order min_plan ≤ plan_order (plan_of (find (of_org oid) w.subscriptions)))
  unfolding require_plan
  require_plan_iff w f = elim (Option-cases (find (of_org oid) w.subscriptions)) [
    | inl e ↦ (λ h. ground arith, λ h. ground arith)
    | inr (s, e) ↦ (λ h. ground arith, λ h. ground arith)
  ]

module _ (p : Platform) (oid : String) (sub : StripeSubscription) (w : World)
    (f : w.faults ≡ []) where
  -- With the statements answered, the end of the Stripe subscription of an organization marks the
  -- organization's subscription as canceled and leaves its plan.
  pub plan-deleted :
      (s : Rows.Subscription)
      → find (of_org oid) w.subscriptions ≡ some s
      → has_stripe_id sub.id s ≡ true
      → (after : Rows.Subscription) × (find
            (of_org oid)
            (serve
              (webhook p (some (StripeEvent.subscription_deleted (some sub))))
              w).1.subscriptions
          ≡ some after)
        × (after.status ≡ "canceled")
        × (after.plan ≡ s.plan)
  unfolding webhook
  plan-deleted s e h = (
    record s { status = "canceled"; updated_at = w.now },
    ground (
      arith,
      find-update (of_org oid) (has_stripe_id sub.id)
          (λ s. record s { status = "canceled"; updated_at = w.now }) w.subscriptions (λ x. refl),
    ),
    refl,
    refl,
  )

  -- With the statements answered, an update of the Stripe subscription of an organization sets the
  -- status that Stripe reports, and the plan "pro" if that is active or trialing, else "free".
  plan-updated :
      (s : Rows.Subscription)
      → find (of_org oid) w.subscriptions ≡ some s
      → has_stripe_id sub.id s ≡ true
      → (after : Rows.Subscription) × (find
            (of_org oid)
            (serve
              (webhook p (some (StripeEvent.subscription_updated (some sub))))
              w).1.subscriptions
          ≡ some after)
        × (after.status ≡ sub.status)
        × (after.plan ≡ plan_of_status sub.status)
  unfolding webhook
  plan-updated s e h = (
    record s {
      status = sub.status;
      plan = plan_of_status sub.status;
      current_period_end = at_second sub.current_period_end;
      updated_at = w.now;
    },
    ground (
      arith,
      find-update (of_org oid) (has_stripe_id sub.id)
          (λ s. record s {
            status = sub.status;
            plan = plan_of_status sub.status;
            current_period_end = at_second sub.current_period_end;
            updated_at = w.now;
          })
          w.subscriptions (λ x. refl),
    ),
    refl,
    refl,
  )
