-- ===== src/Http/Upkeep/Routes.antt =====
-- Every route of the router.
use vergo.Prelude.{String, true, Option, ◌∷◌, [], sym, subst}
use vergo.Platform.{Platform}
use vergo.Config.{Config}
use vergo.Db.{Tables, ◌>>=◌}
use vergo.Db.Upkeep.{Upholds, bind-Upholds}
use vergo.Repo.Upkeep.{Laws}
use vergo.Http.Gin.{Request, Context, Handler, no_keys}
use vergo.Http.Middleware.Auth.{auth, auth_with_api_keys}
use vergo.Http.Middleware.Tenant.{tenant}
use vergo.Http.Middleware.Rbac.{require_role}
use vergo.Http.Handlers.Auth.{Creds, RefreshReq, ForgotIn, ResetIn}
use vergo.Http.Handlers.Orgs.{CreateOrgIn, MemberIn, RoleIn}
use vergo.Http.Handlers.Contexts.{SetContextIn}
use vergo.Http.Handlers.Billing.{StripeEvent}
use vergo.Http.Router
use vergo.Http.Router.{authenticated, protected}
use vergo.Http.Tenancy.Routes.{TenantCall, route, handle, route-protected}
use vergo.Http.Upkeep.Middleware.{
  tenant-Upholds, require_role-Upholds, auth-Upholds, auth_with_api_keys-Upholds,
}
use vergo.Http.Upkeep.Accounts.{
  signup_route-Upholds, login_route-Upholds, refresh-Upholds, logout-Upholds,
  forgot_password-Upholds, reset_password-Upholds, logout_all-Upholds, create_org-Upholds,
  get_org-Upholds, add_org_member-Upholds, update_org_member-Upholds, remove_org_member-Upholds,
  delete_org-Upholds, get_me-Upholds, get_context-Upholds, set_context-Upholds,
}
use vergo.Http.Upkeep.Resources.{
  list_projects-Upholds, get_project-Upholds, list_api_keys-Upholds, subscription-Upholds,
  usage-Upholds, list_endpoints-Upholds, test-Upholds, list_audit-Upholds, presign_put-Upholds,
  presign_get-Upholds, list_files-Upholds, get_file-Upholds, create_project-Upholds,
  update_project-Upholds, delete_project-Upholds, create_key-Upholds, revoke_key-Upholds,
  create_checkout-Upholds, billing_webhook-Upholds, create_hook-Upholds, update_hook-Upholds,
  delete_file-Upholds, create_file-Upholds,
}

-- What a client may ask for: the routes of router.Register.
pub data Route : Type 0 where
  signup login : Option Creds → Route
  refresh logout : Option RefreshReq → Route
  forgot_password : Option ForgotIn → Route
  reset_password : Option ResetIn → Route
  logout_all get_context get_me : Route
  set_context : Option SetContextIn → Route
  create_org : Option CreateOrgIn → Route
  get_org delete_org : String → Route
  add_member : String → Option MemberIn → Route
  update_member : String → String → Option RoleIn → Route
  remove_member : String → String → Route
  billing_webhook : Option StripeEvent → Route
  tenant_call : TenantCall → Route

module _ (p : Platform) (cfg : Config) where
  abbrev pub handler_of : Route → Request → Handler
  handler_of (signup body) r = Router.signup p cfg body
  handler_of (login body) r = Router.login p cfg body
  handler_of (refresh body) r = Router.refresh p cfg body
  handler_of (logout body) r = Router.logout p cfg body
  handler_of (forgot_password body) r = Router.forgot_password p cfg body
  handler_of (reset_password body) r = Router.reset_password p cfg body
  handler_of logout_all r = Router.logout_all p cfg r
  handler_of get_context r = Router.get_context p cfg r
  handler_of get_me r = Router.get_me p cfg r
  handler_of (set_context body) r = Router.set_context p cfg r body
  handler_of (create_org body) r = Router.create_org p cfg r body
  handler_of (get_org id) r = Router.get_org p cfg r id
  handler_of (delete_org id) r = Router.delete_org p cfg r id
  handler_of (add_member id body) r = Router.add_member p cfg r id body
  handler_of (update_member id uid body) r = Router.update_member p cfg r id uid body
  handler_of (remove_member id uid) r = Router.remove_member p cfg r id uid
  handler_of (billing_webhook e) r = Router.billing_webhook p cfg e
  handler_of (tenant_call call) r = route p cfg call r

module _ (p : Platform) (cfg : Config) {P : Tables → Type 0} (laws : Laws p P) where
  authenticated-Upholds :
      (r : Request) (h : Context → Handler)
      → ((c : Context) → Upholds P (h c))
      → Upholds P (authenticated p cfg r h)
  unfolding authenticated
  authenticated-Upholds r h k =
      bind-Upholds (auth p cfg r no_keys) h (auth-Upholds p cfg laws r no_keys) k

  protected-Upholds :
      (r : Request) (h : Context → Handler)
      → ((c : Context) → Upholds P (h c))
      → Upholds P (protected p cfg r h)
  unfolding protected
  protected-Upholds r h k =
      bind-Upholds (auth_with_api_keys p cfg true r no_keys) _
        (auth_with_api_keys-Upholds p cfg laws true r no_keys)
        λ c. bind-Upholds (tenant r c) h (tenant-Upholds r c) k

  with_role-Upholds :
      (role : String) (h : Context → Handler)
      → ((c : Context) → Upholds P (h c))
      → (c : Context) → Upholds P (require_role role c >>= h)
  with_role-Upholds role h k c =
      bind-Upholds (require_role role c) h (require_role-Upholds role c) k

  handle-Upholds : (call : TenantCall) (c : Context) → Upholds P (handle p cfg call c)
  handle-Upholds TenantCall.list_projects c =
      with_role-Upholds "member" _ (λ c. list_projects-Upholds c) c
  handle-Upholds (TenantCall.create_project body) c =
      with_role-Upholds "member" _ (λ c. create_project-Upholds p laws c body) c
  handle-Upholds (TenantCall.get_project id) c =
      with_role-Upholds "member" _ (λ c. get_project-Upholds c _) c
  handle-Upholds (TenantCall.update_project id body) c =
      with_role-Upholds "member" _ (λ c. update_project-Upholds p laws c _ body) c
  handle-Upholds (TenantCall.delete_project id) c =
      with_role-Upholds "member" _ (λ c. delete_project-Upholds p laws c _) c
  handle-Upholds (TenantCall.list_audit q) c =
      with_role-Upholds "admin" _ (λ c. list_audit-Upholds p c q) c
  handle-Upholds (TenantCall.create_api_key body) c = create_key-Upholds p laws c body
  handle-Upholds TenantCall.list_api_keys c = list_api_keys-Upholds c
  handle-Upholds (TenantCall.revoke_api_key id) c = revoke_key-Upholds p laws c _
  handle-Upholds (TenantCall.create_checkout body) c = create_checkout-Upholds p laws c body
  handle-Upholds TenantCall.get_subscription c = subscription-Upholds c
  handle-Upholds TenantCall.get_usage c = usage-Upholds c
  handle-Upholds (TenantCall.create_endpoint body) c = create_hook-Upholds p laws c body
  handle-Upholds TenantCall.list_endpoints c = list_endpoints-Upholds c
  handle-Upholds (TenantCall.update_endpoint id body) c = update_hook-Upholds p laws c _ body
  handle-Upholds (TenantCall.test_endpoint id) c = test-Upholds p c id
  handle-Upholds (TenantCall.presign_put body) c =
      with_role-Upholds "member" _ (λ c. presign_put-Upholds p cfg body) c
  handle-Upholds (TenantCall.presign_get body) c =
      with_role-Upholds "member" _ (λ c. presign_get-Upholds p cfg body) c
  handle-Upholds (TenantCall.list_files limit offset) c =
      with_role-Upholds "member" _ (λ c. list_files-Upholds c limit offset) c
  handle-Upholds (TenantCall.create_file body) c =
      with_role-Upholds "member" _ (λ c. create_file-Upholds p laws cfg c body) c
  handle-Upholds (TenantCall.get_file id) c =
      with_role-Upholds "member" _ (λ c. get_file-Upholds c _) c
  handle-Upholds (TenantCall.delete_file id) c =
      with_role-Upholds "member" _ (λ c. delete_file-Upholds p laws cfg c _) c

  tenant_call-Upholds : (call : TenantCall) (r : Request) → Upholds P (route p cfg call r)
  tenant_call-Upholds call r =
      subst (λ (h : Handler). Upholds P h) (sym (route-protected p cfg call r))
        (protected-Upholds r (handle p cfg call) (handle-Upholds call))

  -- Every route upholds what the statements uphold.
  pub handler_of-Upholds : (route : Route) (r : Request) → Upholds P (handler_of p cfg route r)
  unfolding Router.signup Router.login Router.refresh Router.logout Router.forgot_password
      Router.reset_password Router.logout_all Router.get_context Router.get_me Router.set_context
      Router.create_org Router.get_org Router.delete_org Router.add_member Router.update_member
      Router.remove_member Router.billing_webhook
  handler_of-Upholds (signup body) r = signup_route-Upholds p cfg laws body
  handler_of-Upholds (login body) r = login_route-Upholds p cfg laws body
  handler_of-Upholds (refresh body) r = refresh-Upholds p cfg laws body
  handler_of-Upholds (logout body) r = logout-Upholds p cfg laws body
  handler_of-Upholds (forgot_password body) r = forgot_password-Upholds p cfg laws body
  handler_of-Upholds (reset_password body) r = reset_password-Upholds p cfg laws body
  handler_of-Upholds logout_all r = authenticated-Upholds r _ (λ c. logout_all-Upholds p cfg laws c)
  handler_of-Upholds get_context r =
      authenticated-Upholds r _ (λ c. get_context-Upholds p cfg laws c)
  handler_of-Upholds get_me r = authenticated-Upholds r _ (λ c. get_me-Upholds p cfg laws r c)
  handler_of-Upholds (set_context body) r =
      authenticated-Upholds r _ (λ c. set_context-Upholds p cfg laws c body)
  handler_of-Upholds (create_org body) r =
      authenticated-Upholds r _ (λ c. create_org-Upholds p cfg laws c body)
  handler_of-Upholds (get_org id) r =
      authenticated-Upholds r _ (λ c. get_org-Upholds p cfg laws (("id", id) ∷ []))
  handler_of-Upholds (delete_org id) r =
      protected-Upholds r _
        (with_role-Upholds "owner" _ (λ c. delete_org-Upholds p cfg laws c (("id", id) ∷ [])))
  handler_of-Upholds (add_member id body) r = protected-Upholds r _ (
      with_role-Upholds "admin" _ (λ c. add_org_member-Upholds p cfg laws c (("id", id) ∷ []) body))
  handler_of-Upholds (update_member id uid body) r = protected-Upholds r _ (
      with_role-Upholds "admin" _
        (λ c. update_org_member-Upholds p cfg laws c (("id", id) ∷ ("userId", uid) ∷ []) body))
  handler_of-Upholds (remove_member id uid) r = protected-Upholds r _ (
      with_role-Upholds "admin" _
        (λ c. remove_org_member-Upholds p cfg laws c (("id", id) ∷ ("userId", uid) ∷ [])))
  handler_of-Upholds (billing_webhook e) r = billing_webhook-Upholds p laws e
  handler_of-Upholds (tenant_call call) r = tenant_call-Upholds call r
