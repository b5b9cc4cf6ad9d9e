-- ===== src/Http/Handlers/Billing.antt =====
-- internal/http/handlers/billing.go. A Stripe event comes as ConstructEvent and json.Unmarshal make
-- it: `none` is a body or a signature that is refused, or an object that does not unmarshal.
use vergo.Prelude.{ℕ, String, ◌==◌, ◌||◌, ◌*◌, Option, none, some, if◌then◌else◌}
use vergo.Platform.{Platform}
use vergo.Db.{Act, pure, raise, ignore, or_fail, ◌>>=◌, ◌>>◌}
use vergo.Auth.Jwt.{second}
use vergo.Domain.Billing.{
  create_checkout_session, get_subscription, get_limits, handle_checkout_completed,
  handle_subscription_updated, handle_subscription_deleted,
}
use vergo.Http.Gin.{Context, Body, Handler, Response, reply, fails, bind, or_empty, org_id}

pub record CheckoutIn : Type 0 where
  pub success_url : String
  pub cancel_url : String
  pub price_id : String

-- The fields of stripe.CheckoutSession that are read.
pub record CheckoutSession : Type 0 where
  pub client_reference_id : String
  pub customer : String
  pub subscription : String

-- Those of stripe.Subscription; the end of the first item's period is in seconds.
pub record StripeSubscription : Type 0 where
  pub id : String
  pub status : String
  pub current_period_end : Option ℕ

pub data StripeEvent : Type 0 where
  checkout_completed : Option CheckoutSession → StripeEvent
  invoice_paid subscription_updated subscription_deleted : Option StripeSubscription → StripeEvent
  other_event : StripeEvent

-- time.Unix(s, 0)
abbrev pub at_second : Option ℕ → Option ℕ
at_second none = none
at_second (some s) = some (s * second)

abbrev pub plan_of_status : String → String
plan_of_status status = if status == "active" || status == "trialing" then "pro" else "free"

unfoldable pub on_updated : Option StripeSubscription → Act Response (Unit {0})
unfolding handle_subscription_updated
on_updated none = pure tt
on_updated (some sub) = ignore (
    handle_subscription_updated sub.id sub.status (plan_of_status sub.status)
      (at_second sub.current_period_end))

unfoldable pub on_deleted : Option StripeSubscription → Act Response (Unit {0})
unfolding handle_subscription_deleted
on_deleted none = pure tt
on_deleted (some sub) = ignore (handle_subscription_deleted sub.id)

module _ (p : Platform) where
  -- The organization's identifier stands for its name.
  unfoldable pub create_checkout : Context → Option CheckoutIn → Handler
  unfolding org_id create_checkout_session
  create_checkout c body = do
    let oid = or_empty (org_id c)
    input ← bind body
    url ←
        or_fail (fails 500 "checkout_failed")
          (create_checkout_session p oid oid input.success_url input.cancel_url input.price_id)
    pure (reply 200 (Body.url url))

  -- A session that names a customer and a subscription, as a completed one does.
  unfoldable pub on_completed : Option CheckoutSession → Act Response (Unit {0})
  unfolding handle_checkout_completed
  on_completed none = pure tt
  on_completed (some sess) =
      if sess.client_reference_id == ""
      then pure tt
      else ignore (
          handle_checkout_completed p sess.customer sess.subscription "active" "pro" none
            sess.client_reference_id)

  unfoldable pub on_event : StripeEvent → Act Response (Unit {0})
  unfolding on_completed on_updated on_deleted
  on_event (checkout_completed s) = on_completed s
  on_event (invoice_paid s) = on_updated s
  on_event (subscription_updated s) = on_updated s
  on_event (subscription_deleted s) = on_deleted s
  on_event other_event = pure tt

  unfoldable pub webhook : Option StripeEvent → Handler
  unfolding on_event
  webhook none = raise (reply 400 (Body.error "invalid_signature"))
  webhook (some e) = do on_event e; pure (reply 200 Body.received)

unfoldable pub subscription : Context → Handler
unfolding org_id get_subscription
subscription c = do
  sub ← or_fail (fails 500 "fetch_failed") (get_subscription (or_empty (org_id c)))
  pure (reply 200 (Body.subscription sub))

unfoldable pub usage : Context → Handler
unfolding org_id get_subscription get_limits
usage c = do
  sub ← or_fail (fails 500 "fetch_failed") (get_subscription (or_empty (org_id c)))
  pure (reply 200 (Body.usage sub.plan sub.status (get_limits sub.plan)))
