-- ===== src/Http/Tenancy/Creations.antt =====
-- What the services leave alone that create a key, an endpoint or a subscription.
use vergo.Prelude.{
  String, ◌==◌, ◌≡◌, Bool, not, List, inl, inr, Option-cases, arith, eq_refl, ℕ, Option, none,
}
use vergo.Table.Laws.{select-append_other, select-update}
use vergo.Platform.{Platform}
use vergo.Db.{World}
use vergo.Db.Rows.{
  Project, File, ApiKey, WebhookEndpoint, Subscription, AuditLog, Membership, Organization,
}
use vergo.Http.Tenancy.{outside, outside-api_keys, outside-webhook_endpoints, outside-subscriptions}
use vergo.Domain.ApiKey
use vergo.Db.Rows
use vergo.Repo.Subscriptions.{UpsertSubscriptionParams, upsert_subscription, upserted}
use vergo.Prelude.Text.{append, take_chars}
use vergo.Prelude.{◌+◌}
use vergo.Domain.Webhook

module _ (p : Platform) (oid : String) (w : World) where
  -- A new key, whose plaintext is the draw before.
  pub outside-create_api_key :
      (uid name : String) (expires_at : Option ℕ)
      → outside oid (ApiKey.create p oid uid name expires_at w).1.db ≡ outside oid w.db
  unfolding ApiKey.create
  outside-create_api_key uid name expires_at = elim (Option-cases (p.rand_hex w.drawn)) [
    | inl e ↦ ground (arith, e)
    | inr (hex, e) ↦
        outside-api_keys oid w.db (ApiKey.create p oid uid name expires_at w).1.db
          (ground (arith, e))
          (ground (
            arith,
            e,
            eq_refl oid,
            select-append_other (λ (r : Rows.ApiKey). not (r.org_id == oid)) w.api_keys
                (record {
                  id = p.uuid (w.drawn + 1);
                  org_id = oid;
                  name = name;
                  key_prefix = take_chars 12 (append "sk_" hex);
                  key_hash = p.sha256_hex (append "sk_" hex);
                  created_by = uid;
                  created_at = w.now;
                  expires_at = expires_at;
                  last_used_at = none;
                  revoked_at = none;
                }),
          ))
  ]

  pub outside-create_endpoint :
      (url : String) (events : List String)
      → outside oid (Webhook.create_endpoint p oid url events w).1.db ≡ outside oid w.db
  unfolding Webhook.create_endpoint
  outside-create_endpoint url events = elim (Option-cases (p.rand_hex w.drawn)) [
    | inl e ↦ ground (arith, e)
    | inr (hex, e) ↦
        outside-webhook_endpoints oid w.db (Webhook.create_endpoint p oid url events w).1.db
          (ground (arith, e))
          (ground (
            arith,
            e,
            eq_refl oid,
            select-append_other (λ (r : Rows.WebhookEndpoint). not (r.org_id == oid))
                w.webhook_endpoints
                (record {
                  id = p.uuid (w.drawn + 1);
                  org_id = oid;
                  url = url;
                  secret = append "whsec_" hex;
                  events = events;
                  active = Bool.true;
                  created_at = w.now;
                  updated_at = w.now;
                }),
          ))
  ]

  pub outside-upsert_subscription :
      (a : UpsertSubscriptionParams)
      → a.org_id ≡ oid
      → outside oid (upsert_subscription p a w).1.db ≡ outside oid w.db
  unfolding upsert_subscription
  outside-upsert_subscription a h =
      outside-subscriptions oid w.db (upsert_subscription p a w).1.db (ground (arith)) (
        ground (
          arith,
          h,
          eq_refl oid,
          select-update (λ (r : Rows.Subscription). not (r.org_id == oid))
              (λ s. s.org_id == a.org_id) (upserted a w.now) w.subscriptions
              (λ x e. (ground (arith, e, h), ground (arith, e, h))),
          select-append_other (λ (r : Rows.Subscription). not (r.org_id == oid)) w.subscriptions
              (record {
                id = p.uuid w.drawn;
                org_id = a.org_id;
                stripe_customer_id = a.stripe_customer_id;
                stripe_subscription_id = a.stripe_subscription_id;
                status = a.status;
                plan = a.plan;
                current_period_end = a.current_period_end;
                created_at = w.now;
                updated_at = w.now;
              }),
        ))
