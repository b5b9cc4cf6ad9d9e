-- ===== src/Repo/Subscriptions.antt =====
-- internal/repo/subscriptions.sql.go
use vergo.Prelude.{
  ℕ, String, ◌==◌, ◌&&◌, ◌++◌, ◌∷◌, [], Bool, Option, not, holds, is_some, if◌then◌else◌,
}
use vergo.Table.{find, update}
use vergo.Platform.{Platform}
use vergo.Db.{Act, Err, Tables, ok, err, query, one, draw, ◌>>=◌}
use vergo.Db.Rows.{Subscription}
use vergo.Repo.Orgs.{is_org}

pub record UpsertSubscriptionParams : Type 0 where
  pub org_id : String
  pub stripe_customer_id : String
  pub stripe_subscription_id : Option String
  pub status : String
  pub plan : String
  pub current_period_end : Option ℕ

-- stripe_subscription_id = $1: null equals nothing.
abbrev pub has_stripe_id : String → Subscription → Bool
has_stripe_id id s = holds (λ x. x == id) s.stripe_subscription_id

-- Another organization holds the (unique) Stripe subscription.
abbrev taken : Tables → UpsertSubscriptionParams → Bool
taken t a =
    holds
      (λ id. is_some (find (λ s. has_stripe_id id s && not (s.org_id == a.org_id)) t.subscriptions))
      a.stripe_subscription_id

abbrev pub upserted : UpsertSubscriptionParams → ℕ → Subscription → Subscription
upserted a now s = record s {
  stripe_customer_id = a.stripe_customer_id;
  stripe_subscription_id = a.stripe_subscription_id;
  status = a.status;
  plan = a.plan;
  current_period_end = a.current_period_end;
  updated_at = now;
}

module _ (p : Platform) where
  -- INSERT ... ON CONFLICT (org_id) DO UPDATE
  unfoldable pub upsert_subscription : UpsertSubscriptionParams → Act Err (Unit {0})
  unfolding query
  upsert_subscription a = draw >>= λ n. query λ w.
      if taken w.db a
      then err Err.unique_violation
      else if is_some (find (λ s. s.org_id == a.org_id) w.subscriptions)
      then ok (
        tt,
        record w.db {
          subscriptions = update (λ s. s.org_id == a.org_id) (upserted a w.now) w.subscriptions;
        },
      )
      else if is_org w.db a.org_id
      then ok (
        tt,
        record w.db {
          subscriptions =
              w.subscriptions
              ++ record {
                id = p.uuid n;
                org_id = a.org_id;
                stripe_customer_id = a.stripe_customer_id;
                stripe_subscription_id = a.stripe_subscription_id;
                status = a.status;
                plan = a.plan;
                current_period_end = a.current_period_end;
                created_at = w.now;
                updated_at = w.now;
              }
                ∷ [];
        },
      )
      else err Err.fk_violation

unfoldable pub get_subscription_by_org : String → Act Err Subscription
unfolding query
get_subscription_by_org org_id = query λ w. one w (find (λ s. s.org_id == org_id) w.subscriptions)

unfoldable pub update_subscription_status : String → String → String → Option ℕ → Act Err (Unit {0})
unfolding query
update_subscription_status stripe_subscription_id status plan current_period_end = query λ w. ok (
  tt,
  record w.db {
    subscriptions =
        update (has_stripe_id stripe_subscription_id)
          (λ s. record s {
            status = status;
            plan = plan;
            current_period_end = current_period_end;
            updated_at = w.now;
          })
          w.subscriptions;
  },
)

unfoldable pub cancel_subscription : String → Act Err (Unit {0})
unfolding query
cancel_subscription stripe_subscription_id = query λ w. ok (
  tt,
  record w.db {
    subscriptions =
        update (has_stripe_id stripe_subscription_id)
          (λ s. record s { status = "canceled"; updated_at = w.now }) w.subscriptions;
  },
)
