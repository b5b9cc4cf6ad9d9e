-- ===== src/Domain/Billing.antt =====
-- internal/domain/billing/service.go and plans.go, with Stripe's calls as parameters.
use vergo.Prelude.{ℕ, String, ◌==◌, Option, none, some, if◌then◌else◌}
use vergo.Prelude.Int.{ℤ, pos, negsuc}
use vergo.Platform.{Platform}
use vergo.Db.{Act, Err, Res, ok, err, pure, raise, draw, lift, ignore, ◌>>=◌, ◌>>◌}
use vergo.Db.Rows
use vergo.Repo.Subscriptions.{
  upsert_subscription, get_subscription_by_org, update_subscription_status, cancel_subscription,
}
use vergo.Auth.Jwt.{or_error}

pub record PlanLimits : Type 0 where
  pub max_projects : ℤ
  pub max_members : ℤ
  pub max_storage_mb : ℤ

abbrev free_limits : PlanLimits
free_limits = record { max_projects = pos 3; max_members = pos 5; max_storage_mb = pos 100 }

unfoldable pub get_limits : String → PlanLimits
get_limits plan =
    if plan == "pro"
    then record { max_projects = pos 50; max_members = pos 50; max_storage_mb = pos 10240 }
    else if plan == "enterprise"
    then record { max_projects = negsuc 0; max_members = negsuc 0; max_storage_mb = negsuc 0 }
    else free_limits

pub record Subscription : Type 0 where
  pub id : String
  pub org_id : String
  pub status : String
  pub plan : String
  pub current_period_end : Option ℕ
  pub stripe_subscription_id : Option String

abbrev pub of_row : Rows.Subscription → Subscription
of_row r = record {
  id = r.id;
  org_id = r.org_id;
  status = r.status;
  plan = r.plan;
  current_period_end = r.current_period_end;
  stripe_subscription_id = r.stripe_subscription_id;
}

abbrev pub no_subscription : String → Subscription
no_subscription org_id = record {
  id = "";
  org_id = org_id;
  status = "none";
  plan = "free";
  current_period_end = none;
  stripe_subscription_id = none;
}

subscription_result : String → Res Err Rows.Subscription → Res Err Subscription
subscription_result org_id (ok r) = ok (of_row r)
subscription_result org_id (err Err.no_rows) = ok (no_subscription org_id)
subscription_result org_id (err e) = err e

unfoldable pub get_subscription : String → Act Err Subscription
unfolding get_subscription_by_org subscription_result
get_subscription org_id w =
    let (r, v) = get_subscription_by_org org_id w in (subscription_result org_id r, v)

module _ (p : Platform) where
  -- The customer of the organization's subscription, or a new one, whose record is stored with the
  -- error dropped.
  unfoldable pub customer_of : String → String → Res Err Rows.Subscription → Act Err String
  customer_of org_id org_name (ok sub) = pure sub.stripe_customer_id
  customer_of org_id org_name (err Err.no_rows) = do
    n ← draw
    customer ← lift (or_error Err.stripe_error (p.stripe_customer n org_name org_id))
    ignore (
        upsert_subscription p (record {
          org_id = org_id;
          stripe_customer_id = customer;
          stripe_subscription_id = none;
          status = "incomplete";
          plan = "free";
          current_period_end = none;
        }))
    pure customer
  customer_of org_id org_name (err e) = raise e

  unfoldable pub create_checkout_session :
      String → String → String → String → String → Act Err String
  unfolding customer_of
  create_checkout_session org_id org_name success_url cancel_url price_id w =
      let (found, v) = get_subscription_by_org org_id w in
      (do
        customer ← customer_of org_id org_name found
        lift (
            or_error Err.stripe_error
              (p.stripe_session customer success_url cancel_url org_id price_id)))
        v

  -- A zero time is `none`.
  unfoldable pub handle_checkout_completed :
      String → String → String → String → Option ℕ → String → Act Err (Unit {0})
  unfolding upsert_subscription
  handle_checkout_completed stripe_customer_id stripe_sub_id status plan period_end org_id =
      upsert_subscription p (record {
        org_id = org_id;
        stripe_customer_id = stripe_customer_id;
        stripe_subscription_id = if stripe_sub_id == "" then none else some stripe_sub_id;
        status = status;
        plan = plan;
        current_period_end = period_end;
      })

unfoldable pub handle_subscription_updated :
    String → String → String → Option ℕ → Act Err (Unit {0})
unfolding update_subscription_status
handle_subscription_updated stripe_sub_id status plan period_end =
    update_subscription_status stripe_sub_id status plan period_end

unfoldable pub handle_subscription_deleted : String → Act Err (Unit {0})
unfolding cancel_subscription
handle_subscription_deleted stripe_sub_id = cancel_subscription stripe_sub_id
