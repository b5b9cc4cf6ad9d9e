-- ===== src/Http/Router.antt =====
-- internal/http/router/router.go: the routes of the modelled handlers, each behind its middleware.
-- The names of the path's parameters are those of the routes.
pub mod Members
pub mod KeyAccess
use vergo.Prelude.{String, Bool, true, Option, [], ◌∷◌}
use vergo.Platform.{Platform}
use vergo.Config.{Config}
use vergo.Db.{Act, ◌>>=◌}
use vergo.Http.Gin.{Request, Context, Response, Handler, no_keys}
use vergo.Http.Middleware.Auth.{auth, auth_with_api_keys}
use vergo.Http.Middleware.Tenant.{tenant}
use vergo.Http.Middleware.Rbac.{require_role}
use vergo.Http.Handlers.Auth
use vergo.Http.Handlers.Auth.{Creds, RefreshReq, ForgotIn, ResetIn}
use vergo.Http.Handlers.Audit
use vergo.Http.Handlers.Audit.{AuditQuery}
use vergo.Http.Handlers.Storage
use vergo.Http.Handlers.Storage.{PresignPutIn, PresignGetIn, FileCreateIn}
use vergo.Http.Handlers.Orgs
use vergo.Http.Handlers.Orgs.{CreateOrgIn, MemberIn, RoleIn}
use vergo.Http.Handlers.Projects
use vergo.Http.Handlers.Projects.{ProjectIn}
use vergo.Http.Handlers.ApiKeys
use vergo.Http.Handlers.ApiKeys.{CreateKeyIn}
use vergo.Http.Handlers.Billing
use vergo.Http.Handlers.Billing.{CheckoutIn, StripeEvent}
use vergo.Http.Handlers.Me
use vergo.Http.Handlers.Webhooks
use vergo.Http.Handlers.Webhooks.{CreateEndpointIn, UpdateEndpointIn}
use vergo.Http.Handlers.Contexts
use vergo.Http.Handlers.Contexts.{SetContextIn}

module _ (p : Platform) (cfg : Config) where
  -- authOnly
  unfoldable pub authenticated : Request → (Context → Handler) → Handler
  authenticated r handler = auth p cfg r no_keys >>= handler

  -- protected
  unfoldable pub protected : Request → (Context → Handler) → Handler
  protected r handler = auth_with_api_keys p cfg true r no_keys >>= λ c. tenant r c >>= handler

  -- POST /auth/logout-all
  unfoldable pub logout_all : Request → Handler
  unfolding authenticated
  logout_all r = authenticated r Auth.logout_all

  -- GET and POST /context
  unfoldable pub get_context : Request → Handler
  unfolding authenticated
  get_context r = authenticated r Contexts.get

  unfoldable pub set_context : Request → Option SetContextIn → Handler
  unfolding authenticated
  set_context r body = authenticated r (λ c. Contexts.set c body)

  -- POST /orgs and GET /orgs/:id
  unfoldable pub create_org : Request → Option CreateOrgIn → Handler
  unfolding authenticated
  create_org r body = authenticated r (λ c. Orgs.create p c body)

  unfoldable pub get_org : Request → String → Handler
  unfolding authenticated
  get_org r id = authenticated r (λ _. Orgs.get (("id", id) ∷ []))

  -- POST /orgs/:id/members
  unfoldable pub add_member : Request → String → Option MemberIn → Handler
  unfolding protected
  add_member r id body =
      protected r (λ c. require_role "admin" c >>= λ c. Orgs.add_member c (("id", id) ∷ []) body)

  -- PATCH /orgs/:id/members/:userId
  unfoldable pub update_member : Request → String → String → Option RoleIn → Handler
  unfolding protected
  update_member r id uid body = protected r (λ c.
      require_role "admin" c >>= λ c. Orgs.update_member c (("id", id) ∷ ("userId", uid) ∷ []) body)

  -- DELETE /orgs/:id/members/:userId
  unfoldable pub remove_member : Request → String → String → Handler
  unfolding protected
  remove_member r id uid = protected r (λ c.
      require_role "admin" c >>= λ c. Orgs.remove_member c (("id", id) ∷ ("userId", uid) ∷ []))

  -- DELETE /orgs/:id
  unfoldable pub delete_org : Request → String → Handler
  unfolding protected
  delete_org r id =
      protected r (λ c. require_role "owner" c >>= λ c. Orgs.delete c (("id", id) ∷ []))

  -- GET /me
  unfoldable pub get_me : Request → Handler
  unfolding authenticated
  get_me r = authenticated r (λ c. Me.get r c)

  -- the group /projects, for members
  unfoldable pub projects : Request → (Context → Handler) → Handler
  unfolding protected
  projects r handler = protected r (λ c. require_role "member" c >>= handler)

  unfoldable pub list_projects : Request → Handler
  unfolding projects
  list_projects r = projects r Projects.list

  unfoldable pub create_project : Request → Option ProjectIn → Handler
  unfolding projects
  create_project r body = projects r (λ c. Projects.create p c body)

  unfoldable pub get_project : Request → String → Handler
  unfolding projects
  get_project r id = projects r (λ c. Projects.get c (("id", id) ∷ []))

  unfoldable pub update_project : Request → String → Option ProjectIn → Handler
  unfolding projects
  update_project r id body = projects r (λ c. Projects.update c (("id", id) ∷ []) body)

  unfoldable pub delete_project : Request → String → Handler
  unfolding projects
  delete_project r id = projects r (λ c. Projects.delete c (("id", id) ∷ []))

  -- /api-keys, which asks for no role
  unfoldable pub create_api_key : Request → Option CreateKeyIn → Handler
  unfolding protected
  create_api_key r body = protected r (λ c. ApiKeys.create p c body)

  unfoldable pub list_api_keys : Request → Handler
  unfolding protected
  list_api_keys r = protected r ApiKeys.list

  unfoldable pub revoke_api_key : Request → String → Handler
  unfolding protected
  revoke_api_key r id = protected r (λ c. ApiKeys.revoke c (("id", id) ∷ []))

  -- /billing
  unfoldable pub billing_webhook : Option StripeEvent → Handler
  billing_webhook event = Billing.webhook p event

  unfoldable pub create_checkout : Request → Option CheckoutIn → Handler
  unfolding protected
  create_checkout r body = protected r (λ c. Billing.create_checkout p c body)

  unfoldable pub get_subscription : Request → Handler
  unfolding protected
  get_subscription r = protected r Billing.subscription

  unfoldable pub get_usage : Request → Handler
  unfolding protected
  get_usage r = protected r Billing.usage

  -- /webhooks
  unfoldable pub create_endpoint : Request → Option CreateEndpointIn → Handler
  unfolding protected
  create_endpoint r body = protected r (λ c. Webhooks.create_endpoint p c body)

  unfoldable pub list_endpoints : Request → Handler
  unfolding protected
  list_endpoints r = protected r Webhooks.list_endpoints

  unfoldable pub update_endpoint : Request → String → Option UpdateEndpointIn → Handler
  unfolding protected
  update_endpoint r id body = protected r (λ c. Webhooks.update_endpoint c (("id", id) ∷ []) body)

  unfoldable pub test_endpoint : Request → String → Handler
  unfolding protected
  test_endpoint r endpoint_id = protected r (λ c. Webhooks.test p c endpoint_id)

  -- GET /audit
  unfoldable pub list_audit : Request → AuditQuery → Handler
  unfolding protected
  list_audit r q = protected r (λ c. require_role "admin" c >>= λ c. Audit.list p c q)

  -- the group /storage, for members
  unfoldable pub storage : Request → (Context → Handler) → Handler
  unfolding protected
  storage r handler = protected r (λ c. require_role "member" c >>= handler)

  unfoldable pub presign_put : Request → Option PresignPutIn → Handler
  unfolding storage
  presign_put r body = storage r (λ _. Storage.presign_put p cfg body)

  unfoldable pub presign_get : Request → Option PresignGetIn → Handler
  unfolding storage
  presign_get r body = storage r (λ _. Storage.presign_get p cfg body)

  unfoldable pub list_files : Request → String → String → Handler
  unfolding storage
  list_files r limit offset = storage r (λ c. Storage.list_files c limit offset)

  unfoldable pub create_file : Request → Option FileCreateIn → Handler
  unfolding storage
  create_file r body = storage r (λ c. Storage.create_file p cfg c body)

  unfoldable pub get_file : Request → String → Handler
  unfolding storage
  get_file r id = storage r (λ c. Storage.get_file c (("id", id) ∷ []))

  unfoldable pub delete_file : Request → String → Handler
  unfolding storage
  delete_file r id = storage r (λ c. Storage.delete_file cfg c (("id", id) ∷ []))

  -- POST /auth/..., with no middleware of the group
  unfoldable pub signup : Option Creds → Handler
  signup body = Auth.signup p cfg body

  unfoldable pub login : Option Creds → Handler
  login body = Auth.login p cfg body

  unfoldable pub refresh : Option RefreshReq → Handler
  refresh body = Auth.refresh p cfg body

  unfoldable pub logout : Option RefreshReq → Handler
  logout body = Auth.logout p cfg body

  unfoldable pub forgot_password : Option ForgotIn → Handler
  forgot_password body = Auth.forgot_password p cfg body

  unfoldable pub reset_password : Option ResetIn → Handler
  reset_password body = Auth.reset_password p cfg body
