-- ===== src/Domain/Upkeep/Reads.antt =====
-- The services that only read uphold every property of the tables.
use vergo.Prelude.{String, arith, refl}
use vergo.Prelude.Int.{ℤ}
use vergo.Platform.{Platform}
use vergo.Db.{Tables}
use vergo.Db.Upkeep.{Upholds, upkeep, still-Upholds}
use vergo.Repo.Audit.{AuditFilter}
use vergo.Repo.Upkeep.{
  get_user_by_email-Upholds, get_user_by_id-Upholds, get_org-Upholds, get_member_role-Upholds,
  get_active_org-Upholds, get_refresh_token-Upholds, list_api_keys_by_org-Upholds,
  list_audit_logs-Upholds, list_projects-Upholds, get_project-Upholds, list_files-Upholds,
  get_file-Upholds, list_webhook_endpoints-Upholds, get_webhook_endpoint-Upholds,
  get_subscription_by_org-Upholds,
}
use vergo.Auth.Jwt
use vergo.Auth.RefreshStore
use vergo.Domain.User
use vergo.Domain.Org
use vergo.Domain.UserCtx
use vergo.Domain.ApiKey
use vergo.Domain.Audit
use vergo.Domain.Audit.{Event}
use vergo.Domain.Project
use vergo.Domain.File
use vergo.Domain.Webhook
use vergo.Domain.Billing
use vergo.S3

-- What only reads upholds every property.
module _ {P : Tables → Type 0} where
  pub login-Upholds :
      (p : Platform) (email password : String) → Upholds P (User.login p email password)
  unfolding User.login
  login-Upholds p email password = search (upkeep, get_user_by_email-Upholds) depth 12 fits 5000

  pub get_by_id-Upholds : (id : String) → Upholds P (User.get_by_id id)
  unfolding User.get_by_id
  get_by_id-Upholds id = search (upkeep, get_user_by_id-Upholds) depth 12 fits 5000

  pub get_by_email-Upholds : (email : String) → Upholds P (User.get_by_email email)
  unfolding User.get_by_email
  get_by_email-Upholds email = search (upkeep, get_user_by_email-Upholds) depth 12 fits 5000

  pub org_get-Upholds : (id : String) → Upholds P (Org.get id)
  unfolding Org.get
  org_get-Upholds id = search (upkeep, get_org-Upholds) depth 12 fits 5000

  pub is_member-Upholds : (oid uid : String) → Upholds P (Org.is_member oid uid)
  unfolding Org.is_member
  is_member-Upholds oid uid = record { at = (get_member_role-Upholds oid uid).at }

  pub active_org-Upholds : (uid : String) → Upholds P (UserCtx.active_org uid)
  unfolding UserCtx.active_org
  active_org-Upholds uid = record { at = (get_active_org-Upholds uid).at }

  pub is_valid-Upholds :
      (p : Platform) (jti token : String) → Upholds P (RefreshStore.is_valid p jti token)
  unfolding RefreshStore.is_valid
  is_valid-Upholds p jti token = record { at = (get_refresh_token-Upholds jti).at }

  pub new_access_token-Upholds :
      (p : Platform) (uid secret : String) (ttl : ℤ)
      → Upholds P (Jwt.new_access_token p uid secret ttl)
  unfolding Jwt.new_access_token
  new_access_token-Upholds p uid secret ttl = search upkeep depth 12 fits 5000

  pub new_refresh_token-Upholds :
      (p : Platform) (uid secret : String) (ttl : ℤ)
      → Upholds P (Jwt.new_refresh_token p uid secret ttl)
  unfolding Jwt.new_refresh_token
  new_refresh_token-Upholds p uid secret ttl = search upkeep depth 12 fits 5000

  pub parse-Upholds : (p : Platform) (token secret : String) → Upholds P (Jwt.parse p token secret)
  unfolding Jwt.parse
  parse-Upholds p token secret = search upkeep depth 12 fits 5000

  pub api_key_list-Upholds : (oid : String) → Upholds P (ApiKey.list oid)
  unfolding ApiKey.list
  api_key_list-Upholds oid = search (upkeep, list_api_keys_by_org-Upholds) depth 12 fits 5000

  pub audit_list-Upholds :
      (p : Platform) (f : AuditFilter) (limit offset : ℤ) → Upholds P (Audit.list p f limit offset)
  unfolding Audit.list
  audit_list-Upholds p f limit offset = search (upkeep, list_audit_logs-Upholds) depth 12 fits 5000

  pub project_list-Upholds : (oid : String) → Upholds P (Project.list oid)
  unfolding Project.list
  project_list-Upholds oid = search (upkeep, list_projects-Upholds) depth 12 fits 5000

  pub project_get-Upholds : (oid id : String) → Upholds P (Project.get oid id)
  unfolding Project.get
  project_get-Upholds oid id = search (upkeep, get_project-Upholds) depth 12 fits 5000

  pub file_list-Upholds : (oid : String) (limit offset : ℤ) → Upholds P (File.list oid limit offset)
  unfolding File.list
  file_list-Upholds oid limit offset = search (upkeep, list_files-Upholds) depth 12 fits 5000

  pub file_get-Upholds : (oid id : String) → Upholds P (File.get oid id)
  unfolding File.get
  file_get-Upholds oid id = search (upkeep, get_file-Upholds) depth 12 fits 5000

  pub endpoint_list-Upholds : (oid : String) → Upholds P (Webhook.list_endpoints oid)
  unfolding Webhook.list_endpoints
  endpoint_list-Upholds oid = search (upkeep, list_webhook_endpoints-Upholds) depth 12 fits 5000

  -- A request that is sent leaves the tables alone.
  pub deliver-Upholds :
      (p : Platform) (url secret event payload : String)
      → Upholds P (Webhook.deliver p url secret event payload)
  unfolding Webhook.deliver
  deliver-Upholds p url secret event payload = still-Upholds _ (λ w. ground arith)

  pub test_endpoint-Upholds :
      (p : Platform) (oid id : String) → Upholds P (Webhook.test_endpoint p oid id)
  unfolding Webhook.test_endpoint
  test_endpoint-Upholds p oid id =
      search (upkeep, get_webhook_endpoint-Upholds, deliver-Upholds) depth 12 fits 5000

  pub get_subscription-Upholds : (oid : String) → Upholds P (Billing.get_subscription oid)
  unfolding Billing.get_subscription
  get_subscription-Upholds oid = record { at = (get_subscription_by_org-Upholds oid).at }

  pub delete_object-Upholds :
      (default bucket key : String) → Upholds P (S3.delete_object default bucket key)
  unfolding S3.delete_object
  delete_object-Upholds default bucket key = still-Upholds _ (λ w. refl)
