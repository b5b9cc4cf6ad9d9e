-- ===== src/Http/Upkeep/Resources.antt =====
-- The handlers of projects, files, API keys, billing, webhooks and the audit log.
use vergo.Prelude.{String, Option, none, some, arith}
use vergo.Platform.{Platform}
use vergo.Config.{Config}
use vergo.Db.{Tables, raise}
use vergo.Db.Upkeep.{Upholds, still-Upholds, raise-Upholds, bind-Upholds}
use vergo.Repo.Upkeep.{Laws}
use vergo.Domain.Upkeep.{
  api_key_list-Upholds, audit_list-Upholds, project_list-Upholds, project_get-Upholds,
  file_list-Upholds, file_get-Upholds, endpoint_list-Upholds, test_endpoint-Upholds,
  get_subscription-Upholds, delete_object-Upholds, api_key_create-Upholds, api_key_revoke-Upholds,
  add_event-Upholds, project_create-Upholds, project_update-Upholds, project_delete-Upholds,
  file_create-Upholds, file_delete-Upholds, create_endpoint-Upholds, update_endpoint-Upholds,
  create_checkout_session-Upholds, handle_checkout_completed-Upholds,
  handle_subscription_updated-Upholds, handle_subscription_deleted-Upholds,
}
use vergo.Http.Gin.{Context, Params, Response, require, bind, user_id, org_id}
use vergo.Http.Handlers.Projects
use vergo.Http.Handlers.Projects.{ProjectIn}
use vergo.Http.Handlers.ApiKeys
use vergo.Http.Handlers.ApiKeys.{CreateKeyIn}
use vergo.Http.Handlers.Billing
use vergo.Http.Handlers.Billing.{CheckoutIn, CheckoutSession, StripeEvent, StripeSubscription}
use vergo.Http.Handlers.Webhooks
use vergo.Http.Handlers.Webhooks.{CreateEndpointIn, UpdateEndpointIn}
use vergo.Http.Handlers.Audit
use vergo.Http.Handlers.Audit.{AuditQuery}
use vergo.Http.Handlers.Storage
use vergo.Http.Handlers.Storage.{PresignPutIn, PresignGetIn, FileCreateIn}
use vergo.Http.Upkeep.Middleware.{gin, require-Upholds, body-Upholds}

module _ {P : Tables → Type 0} where
  pub list_projects-Upholds : (c : Context) → Upholds P (Projects.list c)
  unfolding Projects.list
  list_projects-Upholds c = search (gin, project_list-Upholds) depth 20 fits 5000

  pub get_project-Upholds : (c : Context) (ps : Params) → Upholds P (Projects.get c ps)
  unfolding Projects.get
  get_project-Upholds c ps = search (gin, project_get-Upholds) depth 20 fits 5000

  pub list_api_keys-Upholds : (c : Context) → Upholds P (ApiKeys.list c)
  unfolding ApiKeys.list
  list_api_keys-Upholds c = search (gin, api_key_list-Upholds) depth 20 fits 5000

  pub subscription-Upholds : (c : Context) → Upholds P (Billing.subscription c)
  unfolding Billing.subscription
  subscription-Upholds c = search (gin, get_subscription-Upholds) depth 20 fits 5000

  pub usage-Upholds : (c : Context) → Upholds P (Billing.usage c)
  unfolding Billing.usage
  usage-Upholds c = search (gin, get_subscription-Upholds) depth 20 fits 5000

  pub list_endpoints-Upholds : (c : Context) → Upholds P (Webhooks.list_endpoints c)
  unfolding Webhooks.list_endpoints
  list_endpoints-Upholds c = search (gin, endpoint_list-Upholds) depth 20 fits 5000

  pub test-Upholds : (p : Platform) (c : Context) (id : String) → Upholds P (Webhooks.test p c id)
  unfolding Webhooks.test
  test-Upholds p c id = search (gin, test_endpoint-Upholds) depth 20 fits 5000

  pub list_audit-Upholds :
      (p : Platform) (c : Context) (q : AuditQuery) → Upholds P (Audit.list p c q)
  unfolding Audit.list
  list_audit-Upholds p c q = search (gin, audit_list-Upholds) depth 20 fits 5000

  pub presign_put-Upholds :
      (p : Platform) (cfg : Config) (body : Option PresignPutIn)
      → Upholds P (Storage.presign_put p cfg body)
  unfolding Storage.presign_put
  presign_put-Upholds p cfg body = still-Upholds _ (λ w. ground arith)

  pub presign_get-Upholds :
      (p : Platform) (cfg : Config) (body : Option PresignGetIn)
      → Upholds P (Storage.presign_get p cfg body)
  unfolding Storage.presign_get
  presign_get-Upholds p cfg body = still-Upholds _ (λ w. ground arith)

  pub list_files-Upholds :
      (c : Context) (limit offset : String) → Upholds P (Storage.list_files c limit offset)
  unfolding Storage.list_files
  list_files-Upholds c limit offset = search (gin, file_list-Upholds) depth 20 fits 5000

  pub get_file-Upholds : (c : Context) (ps : Params) → Upholds P (Storage.get_file c ps)
  unfolding Storage.get_file
  get_file-Upholds c ps = search (gin, file_get-Upholds) depth 20 fits 5000

module _ (p : Platform) {P : Tables → Type 0} (laws : Laws p P) where
  pub create_project-Upholds :
      (c : Context) (body : Option ProjectIn) → Upholds P (Projects.create p c body)
  unfolding Projects.create
  create_project-Upholds c body =
      search (gin, project_create-Upholds p laws, add_event-Upholds p laws) depth 20 fits 5000

  pub update_project-Upholds :
      (c : Context) (ps : Params) (body : Option ProjectIn) → Upholds P (Projects.update c ps body)
  unfolding Projects.update
  update_project-Upholds c ps body =
      search (gin, project_get-Upholds, project_update-Upholds p laws, add_event-Upholds p laws)
        depth 20 fits 5000

  pub delete_project-Upholds : (c : Context) (ps : Params) → Upholds P (Projects.delete c ps)
  unfolding Projects.delete
  delete_project-Upholds c ps =
      search (gin, project_get-Upholds, project_delete-Upholds p laws, add_event-Upholds p laws)
        depth 20 fits 5000

  pub create_key-Upholds :
      (c : Context) (body : Option CreateKeyIn) → Upholds P (ApiKeys.create p c body)
  unfolding ApiKeys.create
  create_key-Upholds c body =
      search (gin, api_key_create-Upholds p laws, add_event-Upholds p laws) depth 20 fits 5000

  pub revoke_key-Upholds : (c : Context) (ps : Params) → Upholds P (ApiKeys.revoke c ps)
  unfolding ApiKeys.revoke
  revoke_key-Upholds c ps =
      search (gin, api_key_revoke-Upholds p laws, add_event-Upholds p laws) depth 20 fits 5000

  pub create_checkout-Upholds :
      (c : Context) (body : Option CheckoutIn) → Upholds P (Billing.create_checkout p c body)
  unfolding Billing.create_checkout
  create_checkout-Upholds c body =
      search (gin, create_checkout_session-Upholds p laws) depth 20 fits 5000

  completed-Upholds : (s : Option CheckoutSession) → Upholds P (Billing.on_completed p s)
  unfolding Billing.on_completed
  completed-Upholds none = search gin depth 20 fits 5000
  completed-Upholds (some s) =
      search (gin, handle_checkout_completed-Upholds p laws) depth 20 fits 5000

  updated-Upholds : (s : Option StripeSubscription) → Upholds P (Billing.on_updated s)
  unfolding Billing.on_updated
  updated-Upholds none = search gin depth 20 fits 5000
  updated-Upholds (some s) =
      search (gin, handle_subscription_updated-Upholds p laws) depth 20 fits 5000

  deleted-Upholds : (s : Option StripeSubscription) → Upholds P (Billing.on_deleted s)
  unfolding Billing.on_deleted
  deleted-Upholds none = search gin depth 20 fits 5000
  deleted-Upholds (some s) =
      search (gin, handle_subscription_deleted-Upholds p laws) depth 20 fits 5000

  event-Upholds : (e : StripeEvent) → Upholds P (Billing.on_event p e)
  unfolding Billing.on_event
  event-Upholds (StripeEvent.checkout_completed s) = completed-Upholds s
  event-Upholds (StripeEvent.invoice_paid s) = updated-Upholds s
  event-Upholds (StripeEvent.subscription_updated s) = updated-Upholds s
  event-Upholds (StripeEvent.subscription_deleted s) = deleted-Upholds s
  event-Upholds StripeEvent.other_event = search gin depth 20 fits 5000

  pub billing_webhook-Upholds : (e : Option StripeEvent) → Upholds P (Billing.webhook p e)
  unfolding Billing.webhook
  billing_webhook-Upholds none = search gin depth 20 fits 5000
  billing_webhook-Upholds (some e) = search (gin, event-Upholds) depth 20 fits 5000

  pub create_hook-Upholds :
      (c : Context) (body : Option CreateEndpointIn) → Upholds P (Webhooks.create_endpoint p c body)
  unfolding Webhooks.create_endpoint
  create_hook-Upholds c body = search (gin, create_endpoint-Upholds p laws) depth 20 fits 5000

  pub update_hook-Upholds :
      (c : Context) (ps : Params) (body : Option UpdateEndpointIn)
      → Upholds P (Webhooks.update_endpoint c ps body)
  unfolding Webhooks.update_endpoint
  update_hook-Upholds c ps body = search (gin, update_endpoint-Upholds p laws) depth 20 fits 5000

  pub delete_file-Upholds :
      (cfg : Config) (c : Context) (ps : Params) → Upholds P (Storage.delete_file cfg c ps)
  unfolding Storage.delete_file
  delete_file-Upholds cfg c ps =
      search (gin, file_get-Upholds, delete_object-Upholds, file_delete-Upholds p laws) depth 20
        fits 5000

  register-Upholds :
      (cfg : Config) (oid uid : String) (input : FileCreateIn)
      → Upholds P (Storage.register p cfg oid uid input)
  unfolding Storage.register
  register-Upholds cfg oid uid input = search (gin, file_create-Upholds p laws) depth 20 fits 5000

  checked-Upholds :
      (cfg : Config) (refused : Option Response) (oid uid : String) (input : FileCreateIn)
      → Upholds P (elim refused [ some r ↦ raise r | none ↦ Storage.register p cfg oid uid input ])
  checked-Upholds cfg none oid uid input = register-Upholds cfg oid uid input
  checked-Upholds cfg (some r) oid uid input = raise-Upholds r

  pub create_file-Upholds :
      (cfg : Config) (c : Context) (body : Option FileCreateIn)
      → Upholds P (Storage.create_file p cfg c body)
  unfolding Storage.create_file
  create_file-Upholds cfg c body =
      bind-Upholds (require _ (org_id c)) _ (require-Upholds _ (org_id c)) λ oid.
        bind-Upholds (require _ (user_id c)) _ (require-Upholds _ (user_id c)) λ uid.
          bind-Upholds (bind body) _ (body-Upholds body)
            λ input. checked-Upholds cfg (Storage.policy_error cfg input) oid uid input
