-- ===== src/Domain/Upkeep/Resources.antt =====
-- The services of the audit log, projects, files, webhooks and billing that change the tables
-- uphold what their statements do.
use vergo.Prelude.{ℕ, String, Bool, Option, List, [], ◌∷◌}
use vergo.Prelude.Int.{ℤ}
use vergo.Prelude.Json.{Json}
use vergo.Platform.{Platform}
use vergo.Db.{Tables, Res, Err, ok, err}
use vergo.Db.Rows
use vergo.Db.Rows.{PasswordResetToken, WebhookEndpoint}
use vergo.Db.Upkeep.{Upholds, upkeep, bind-Upholds, lift-Upholds}
use vergo.Repo.Subscriptions.{get_subscription_by_org}
use vergo.Repo.Webhooks.{PendingDelivery}
use vergo.Repo.Upkeep.{Laws, get_pending_deliveries-Upholds, get_subscription_by_org-Upholds}
use vergo.Domain.Audit
use vergo.Domain.Audit.{Event}
use vergo.Domain.Project
use vergo.Domain.File
use vergo.Domain.Webhook
use vergo.Domain.Webhook.Dispatcher
use vergo.Domain.Billing
use vergo.Domain.Upkeep.Reads.{deliver-Upholds}

module _ (p : Platform) {P : Tables → Type 0} (laws : Laws p P) where
  pub add_event-Upholds : (e : Event) → Upholds P (Audit.add_event e)
  unfolding Audit.add_event
  add_event-Upholds e = search (upkeep, laws.insert_audit_log) depth 20 fits 5000

  pub project_create-Upholds :
      (oid name description uid : String) → Upholds P (Project.create p oid name description uid)
  unfolding Project.create
  project_create-Upholds oid name description uid =
      search (upkeep, laws.insert_project) depth 20 fits 5000

  pub project_update-Upholds :
      (oid id name description : String) → Upholds P (Project.update oid id name description)
  unfolding Project.update
  project_update-Upholds oid id name description =
      search (upkeep, laws.update_project) depth 20 fits 5000

  pub project_delete-Upholds : (oid id : String) → Upholds P (Project.delete oid id)
  unfolding Project.delete
  project_delete-Upholds oid id = search (upkeep, laws.delete_project) depth 20 fits 5000

  pub file_create-Upholds :
      (oid uid bucket key : String) (size : Option ℤ) (type : String) (metadata : Option Json)
      → Upholds P (File.create p oid uid bucket key size type metadata)
  unfolding File.create
  file_create-Upholds oid uid bucket key size type metadata =
      search (upkeep, laws.insert_file) depth 20 fits 5000

  pub file_delete-Upholds : (oid id : String) → Upholds P (File.delete oid id)
  unfolding File.delete
  file_delete-Upholds oid id = search (upkeep, laws.delete_file) depth 20 fits 5000

  pub create_endpoint-Upholds :
      (oid url : String) (events : List String)
      → Upholds P (Webhook.create_endpoint p oid url events)
  unfolding Webhook.create_endpoint
  create_endpoint-Upholds oid url events =
      search (upkeep, laws.create_webhook_endpoint) depth 20 fits 5000

  pub update_endpoint-Upholds :
      (oid id url : String) (events : List String) (active : Bool)
      → Upholds P (Webhook.update_endpoint oid id url events active)
  unfolding Webhook.update_endpoint
  update_endpoint-Upholds oid id url events active =
      laws.update_webhook_endpoint oid id url events active

  record_try-Upholds :
      (r : PendingDelivery) (x : Res Err (Unit {0})) → Upholds P (Dispatcher.record_try p r x)
  unfolding Dispatcher.record_try
  record_try-Upholds r (ok x) = search (upkeep, laws.mark_delivered) depth 20 fits 5000
  record_try-Upholds r (err e) = search (upkeep, laws.mark_retry) depth 20 fits 5000

  process_one-Upholds : (r : PendingDelivery) → Upholds P (Dispatcher.process_one p r)
  unfolding Dispatcher.process_one
  process_one-Upholds r = search (upkeep, deliver-Upholds, record_try-Upholds) depth 20 fits 5000

  process_all-Upholds : (rs : List PendingDelivery) → Upholds P (Dispatcher.process_all p rs)
  unfolding Dispatcher.process_all
  process_all-Upholds [] = search upkeep depth 20 fits 5000
  process_all-Upholds (r ∷ rs) =
      bind-Upholds _ _ (process_one-Upholds r) (λ _. process_all-Upholds rs)

  process_rows-Upholds :
      (x : Res Err (List PendingDelivery)) → Upholds P (Dispatcher.process_rows p x)
  unfolding Dispatcher.process_rows
  process_rows-Upholds (ok rows) = process_all-Upholds rows
  process_rows-Upholds (err e) = search upkeep depth 20 fits 5000

  pub process_pending-Upholds : Upholds P (Dispatcher.process_pending p)
  unfolding Dispatcher.process_pending
  process_pending-Upholds =
      search (upkeep, get_pending_deliveries-Upholds, process_rows-Upholds) depth 20 fits 5000

  customer_of-Upholds :
      (oid name : String) (r : Res Err Rows.Subscription)
      → Upholds P (Billing.customer_of p oid name r)
  unfolding Billing.customer_of
  customer_of-Upholds oid name (ok sub) = search upkeep depth 20 fits 5000
  customer_of-Upholds oid name (err Err.no_rows) =
      search (upkeep, laws.upsert_subscription) depth 20 fits 5000
  customer_of-Upholds oid name (err e) = search upkeep depth 20 fits 5000

  pub create_checkout_session-Upholds :
      (oid name success cancel price : String)
      → Upholds P (Billing.create_checkout_session p oid name success cancel price)
  unfolding Billing.create_checkout_session
  create_checkout_session-Upholds oid name success cancel price = record {
    at = λ w h.
        let found = get_subscription_by_org oid w in
        (bind-Upholds (Billing.customer_of p oid name found.0) _
            (customer_of-Upholds oid name found.0) (λ customer. lift-Upholds _)).at
          found.1 ((get_subscription_by_org-Upholds {P = P} oid).at w h);
  }

  pub handle_checkout_completed-Upholds :
      (customer sub status plan : String) (end_at : Option ℕ) (oid : String)
      → Upholds P (Billing.handle_checkout_completed p customer sub status plan end_at oid)
  unfolding Billing.handle_checkout_completed
  handle_checkout_completed-Upholds customer sub status plan end_at oid = laws.upsert_subscription _

  pub handle_subscription_updated-Upholds :
      (id status plan : String) (end_at : Option ℕ)
      → Upholds P (Billing.handle_subscription_updated id status plan end_at)
  unfolding Billing.handle_subscription_updated
  handle_subscription_updated-Upholds id status plan end_at =
      laws.update_subscription_status id status plan end_at

  pub handle_subscription_deleted-Upholds :
      (id : String) → Upholds P (Billing.handle_subscription_deleted id)
  unfolding Billing.handle_subscription_deleted
  handle_subscription_deleted-Upholds id = laws.cancel_subscription id
