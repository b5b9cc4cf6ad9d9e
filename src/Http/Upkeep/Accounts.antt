-- ===== src/Http/Upkeep/Accounts.antt =====
-- The handlers of accounts, organizations and members.
use vergo.Prelude.{String, Option, none, some}
use vergo.Platform.{Platform}
use vergo.Config.{Config}
use vergo.Db.{Tables}
use vergo.Db.Upkeep.{Upholds}
use vergo.Repo.Upkeep.{Laws}
use vergo.Domain.User.{User}
use vergo.Domain.Upkeep.{
  login-Upholds, get_by_id-Upholds, get_by_email-Upholds, org_get-Upholds, is_member-Upholds,
  active_org-Upholds, is_valid-Upholds, new_access_token-Upholds, new_refresh_token-Upholds,
  parse-Upholds, signup-Upholds, update_password-Upholds, org_create-Upholds, add_member-Upholds,
  update_member-Upholds, remove_member-Upholds, org_delete-Upholds, set_active_org-Upholds,
  save_refresh-Upholds, revoke-Upholds, revoke_all-Upholds, create_reset_token-Upholds,
  validate_and_consume-Upholds, add_event-Upholds,
}
use vergo.Http.Gin.{Request, Context, Params, Body, user_id, map_reply, after_writing, reply}
use vergo.Http.Handlers.Auth
use vergo.Http.Handlers.Auth.{Creds, RefreshReq, ForgotIn, ResetIn}
use vergo.Http.Handlers.Orgs
use vergo.Http.Handlers.Orgs.{CreateOrgIn, MemberIn, RoleIn}
use vergo.Http.Handlers.Contexts
use vergo.Http.Handlers.Contexts.{SetContextIn}
use vergo.Http.Handlers.Me
use vergo.Http.Upkeep.Middleware.{gin, map_reply-Upholds}

module _ (p : Platform) (cfg : Config) {P : Tables → Type 0} (laws : Laws p P) where
  issue-Upholds : (u : User) → Upholds P (Auth.issue p cfg u)
  unfolding Auth.issue
  issue-Upholds u =
      search (gin, new_access_token-Upholds, new_refresh_token-Upholds, save_refresh-Upholds p laws)
        depth 20 fits 5000

  pub signup_route-Upholds : (body : Option Creds) → Upholds P (Auth.signup p cfg body)
  unfolding Auth.signup
  signup_route-Upholds body = search (gin, signup-Upholds p laws, issue-Upholds) depth 20 fits 5000

  pub login_route-Upholds : (body : Option Creds) → Upholds P (Auth.login p cfg body)
  unfolding Auth.login
  login_route-Upholds body = search (gin, login-Upholds, issue-Upholds) depth 20 fits 5000

  refresh_claims-Upholds : (token : String) → Upholds P (Auth.refresh_claims p cfg token)
  unfolding Auth.refresh_claims
  refresh_claims-Upholds token = search (gin, parse-Upholds) depth 20 fits 5000

  reissue-Upholds : (jti uid : String) → Upholds P (Auth.reissue p cfg jti uid)
  unfolding Auth.reissue
  reissue-Upholds jti uid =
      search (gin, new_access_token-Upholds, new_refresh_token-Upholds, save_refresh-Upholds p laws)
        depth 20 fits 5000

  rotate-Upholds : (jti uid : String) → Upholds P (Auth.rotate p cfg jti uid)
  unfolding Auth.rotate
  rotate-Upholds jti uid = search (gin, revoke-Upholds p laws, reissue-Upholds) depth 20 fits 5000

  pub refresh-Upholds : (body : Option RefreshReq) → Upholds P (Auth.refresh p cfg body)
  unfolding Auth.refresh
  refresh-Upholds body =
      search (gin, refresh_claims-Upholds, is_valid-Upholds, rotate-Upholds) depth 20 fits 5000

  pub logout-Upholds : (body : Option RefreshReq) → Upholds P (Auth.logout p cfg body)
  unfolding Auth.logout
  logout-Upholds body =
      search (gin, refresh_claims-Upholds, revoke-Upholds p laws) depth 20 fits 5000

  pub forgot_password-Upholds :
      (body : Option ForgotIn) → Upholds P (Auth.forgot_password p cfg body)
  unfolding Auth.forgot_password
  forgot_password-Upholds body =
      search (gin, get_by_email-Upholds, create_reset_token-Upholds p laws) depth 20 fits 5000

  pub reset_password-Upholds : (body : Option ResetIn) → Upholds P (Auth.reset_password p cfg body)
  unfolding Auth.reset_password
  reset_password-Upholds body =
      search
        (
          gin,
          validate_and_consume-Upholds p laws,
          update_password-Upholds p laws,
          revoke_all-Upholds p laws,
        )
        depth 20 fits 5000

  pub logout_all-Upholds : (c : Context) → Upholds P (Auth.logout_all c)
  unfolding Auth.logout_all
  logout_all-Upholds c = search (gin, revoke_all-Upholds p laws) depth 20 fits 5000

  pub create_org-Upholds :
      (c : Context) (body : Option CreateOrgIn) → Upholds P (Orgs.create p c body)
  unfolding Orgs.create
  create_org-Upholds c body =
      search (gin, org_create-Upholds p laws, add_event-Upholds p laws) depth 20 fits 5000

  pub get_org-Upholds : (ps : Params) → Upholds P (Orgs.get ps)
  unfolding Orgs.get
  get_org-Upholds ps = search (gin, org_get-Upholds) depth 20 fits 5000

  pub add_org_member-Upholds :
      (c : Context) (ps : Params) (body : Option MemberIn) → Upholds P (Orgs.add_member c ps body)
  unfolding Orgs.add_member
  add_org_member-Upholds c ps body =
      search (gin, add_member-Upholds p laws, add_event-Upholds p laws) depth 20 fits 5000

  pub update_org_member-Upholds :
      (c : Context) (ps : Params) (body : Option RoleIn) → Upholds P (Orgs.update_member c ps body)
  unfolding Orgs.update_member
  update_org_member-Upholds c ps body =
      search (gin, update_member-Upholds p laws, add_event-Upholds p laws) depth 20 fits 5000

  pub remove_org_member-Upholds : (c : Context) (ps : Params) → Upholds P (Orgs.remove_member c ps)
  unfolding Orgs.remove_member
  remove_org_member-Upholds c ps =
      search (gin, remove_member-Upholds p laws, add_event-Upholds p laws) depth 20 fits 5000

  pub delete_org-Upholds : (c : Context) (ps : Params) → Upholds P (Orgs.delete c ps)
  unfolding Orgs.delete
  delete_org-Upholds c ps =
      search (gin, org_delete-Upholds p laws, add_event-Upholds p laws) depth 20 fits 5000

  pub get_me-Upholds : (r : Request) (c : Context) → Upholds P (Me.get r c)
  unfolding Me.get
  get_me-Upholds r c = search (gin, get_by_id-Upholds, is_member-Upholds) depth 20 fits 5000

  context_of-Upholds : (uid : String) → Upholds P (Contexts.get_of uid)
  unfolding Contexts.get_of
  context_of-Upholds uid = search (gin, active_org-Upholds, is_member-Upholds) depth 20 fits 5000

  pub get_context-Upholds : (c : Context) → Upholds P (Contexts.get c)
  unfolding Contexts.get
  get_context-Upholds c = found (user_id c)
    where
      found :
          (x : Option String)
          → Upholds P (elim x [
            | some uid ↦ Contexts.get_of uid
            | none ↦
                map_reply
                  (after_writing (reply 401 (Body.error "missing_user")))
                  (Contexts.get_of "")
          ])
      found (some uid) = context_of-Upholds uid
      found none =
          map_reply-Upholds (after_writing (reply 401 (Body.error "missing_user")))
            (Contexts.get_of "") (context_of-Upholds "")

  pub set_context-Upholds :
      (c : Context) (body : Option SetContextIn) → Upholds P (Contexts.set c body)
  unfolding Contexts.set
  set_context-Upholds c body =
      search (gin, is_member-Upholds, set_active_org-Upholds p laws) depth 20 fits 5000
