-- ===== src/Repo/Upkeep.antt =====
-- What a property of the tables needs of the statements that change them, and the statements that
-- only read, which uphold every property.
use vergo.Prelude.{ℕ, String, Bool, Option, List, none, some, arith, ◌≡◌}
use vergo.Prelude.Int.{ℤ, pos, negsuc}
use vergo.Platform.{Platform}
use vergo.Db.{Tables, World, ok, one}
use vergo.Db.Rows.{File, AuditLog}
use vergo.Db.Upkeep.{Upholds, still-Upholds, rows-Upholds}
use vergo.Repo.Users
use vergo.Repo.Orgs
use vergo.Repo.Contexts
use vergo.Repo.Tokens
use vergo.Repo.Keys
use vergo.Repo.Audit
use vergo.Repo.Audit.{AuditFilter, paged}
use vergo.Repo.Projects
use vergo.Repo.Files
use vergo.Repo.Webhooks
use vergo.Repo.Subscriptions
use vergo.Repo.Subscriptions.{UpsertSubscriptionParams}

pub record Laws (p : Platform) (P : Tables → Type 0) : Type 0 where
  pub insert_user :
      (id email hash : String) (at : ℕ) → Upholds P (Users.insert_user id email hash at)
  pub update_user_password : (id hash : String) → Upholds P (Users.update_user_password id hash)
  pub insert_org : (id name owner : String) (at : ℕ) → Upholds P (Orgs.insert_org id name owner at)
  pub delete_org : (id : String) → Upholds P (Orgs.delete_org id)
  pub upsert_member : (oid uid role : String) → Upholds P (Orgs.upsert_member oid uid role)
  pub update_member_role :
      (oid uid role : String) → Upholds P (Orgs.update_member_role oid uid role)
  pub delete_member : (oid uid : String) → Upholds P (Orgs.delete_member oid uid)
  pub upsert_active_org : (uid oid : String) → Upholds P (Contexts.upsert_active_org uid oid)
  pub insert_refresh_token :
      (id uid hash : String) (at : ℕ) (from : Option String)
      → Upholds P (Tokens.insert_refresh_token id uid hash at from)
  pub revoke_token : (id : String) → Upholds P (Tokens.revoke_token id)
  pub revoke_all_user_tokens : (uid : String) → Upholds P (Tokens.revoke_all_user_tokens uid)
  pub create_password_reset_token :
      (uid hash : String) (at : ℕ) → Upholds P (Tokens.create_password_reset_token p uid hash at)
  pub mark_password_reset_used : (id : String) → Upholds P (Tokens.mark_password_reset_used id)
  pub create_api_key :
      (oid name prefix hash uid : String) (at : Option ℕ)
      → Upholds P (Keys.create_api_key p oid name prefix hash uid at)
  pub revoke_api_key : (oid id : String) → Upholds P (Keys.revoke_api_key oid id)
  pub touch_api_key_last_used : (id : String) → Upholds P (Keys.touch_api_key_last_used id)
  pub insert_audit_log : (row : AuditLog) → Upholds P (Audit.insert_audit_log row)
  pub insert_project :
      (id oid name : String) (description : Option String) (uid : String)
      → Upholds P (Projects.insert_project id oid name description uid)
  pub update_project :
      (oid id name : String) (description : Option String)
      → Upholds P (Projects.update_project oid id name description)
  pub delete_project : (oid id : String) → Upholds P (Projects.delete_project oid id)
  pub insert_file : (row : File) → Upholds P (Files.insert_file row)
  pub delete_file : (oid id : String) → Upholds P (Files.delete_file oid id)
  pub create_webhook_endpoint :
      (oid url secret : String) (events : List String)
      → Upholds P (Webhooks.create_webhook_endpoint p oid url secret events)
  pub update_webhook_endpoint :
      (oid id url : String) (events : List String) (active : Bool)
      → Upholds P (Webhooks.update_webhook_endpoint oid id url events active)
  pub insert_delivery :
      (id event payload : String) → Upholds P (Webhooks.insert_delivery p id event payload)
  pub mark_delivered :
      (id : String) (status : Option ℕ) (response : Option String)
      → Upholds P (Webhooks.mark_delivered id status response)
  pub mark_retry :
      (id : String) (status : Option ℕ) (response : Option String) (at : Option ℕ)
      → Upholds P (Webhooks.mark_retry id status response at)
  pub upsert_subscription :
      (a : UpsertSubscriptionParams) → Upholds P (Subscriptions.upsert_subscription p a)
  pub update_subscription_status :
      (id status plan : String) (end_at : Option ℕ)
      → Upholds P (Subscriptions.update_subscription_status id status plan end_at)
  pub cancel_subscription : (id : String) → Upholds P (Subscriptions.cancel_subscription id)

one_reads :
    {A : Type 0} (w : World) (o : Option A) (a : A) (t : Tables) → one w o ≡ ok (a, t) → t ≡ w.db
one_reads w none a t e = cc
one_reads w (some b) a t e = ground (arith, e)

paged_reads :
    {A : Type 0} (limit offset : ℤ) (rows : List A) (w : World) (a : List A) (t : Tables)
    → paged limit offset rows w ≡ ok (a, t)
    → t ≡ w.db
paged_reads (pos l) (pos o) rows w a t e = ground (arith, e)
paged_reads (pos l) (negsuc o) rows w a t e = cc
paged_reads (negsuc l) offset rows w a t e = cc

module _ {P : Tables → Type 0} where
  pub get_user_by_email-Upholds : (email : String) → Upholds P (Users.get_user_by_email email)
  unfolding Users.get_user_by_email
  get_user_by_email-Upholds email = rows-Upholds P _ (λ w a t e. one_reads w _ a t e)

  pub get_user_by_id-Upholds : (id : String) → Upholds P (Users.get_user_by_id id)
  unfolding Users.get_user_by_id
  get_user_by_id-Upholds id = rows-Upholds P _ (λ w a t e. one_reads w _ a t e)

  pub get_org-Upholds : (id : String) → Upholds P (Orgs.get_org id)
  unfolding Orgs.get_org
  get_org-Upholds id = rows-Upholds P _ (λ w a t e. one_reads w _ a t e)

  pub get_member_role-Upholds : (oid uid : String) → Upholds P (Orgs.get_member_role oid uid)
  unfolding Orgs.get_member_role
  get_member_role-Upholds oid uid = rows-Upholds P _ (λ w a t e. one_reads w _ a t e)

  pub get_active_org-Upholds : (uid : String) → Upholds P (Contexts.get_active_org uid)
  unfolding Contexts.get_active_org
  get_active_org-Upholds uid = rows-Upholds P _ (λ w a t e. one_reads w _ a t e)

  pub get_refresh_token-Upholds : (id : String) → Upholds P (Tokens.get_refresh_token id)
  unfolding Tokens.get_refresh_token
  get_refresh_token-Upholds id = rows-Upholds P _ (λ w a t e. one_reads w _ a t e)

  pub get_password_reset_by_hash-Upholds :
      (hash : String) → Upholds P (Tokens.get_password_reset_by_hash hash)
  unfolding Tokens.get_password_reset_by_hash
  get_password_reset_by_hash-Upholds hash = rows-Upholds P _ (λ w a t e. one_reads w _ a t e)

  pub get_api_key_by_hash-Upholds : (hash : String) → Upholds P (Keys.get_api_key_by_hash hash)
  unfolding Keys.get_api_key_by_hash
  get_api_key_by_hash-Upholds hash = rows-Upholds P _ (λ w a t e. one_reads w _ a t e)

  pub list_api_keys_by_org-Upholds : (oid : String) → Upholds P (Keys.list_api_keys_by_org oid)
  unfolding Keys.list_api_keys_by_org
  list_api_keys_by_org-Upholds oid = still-Upholds _ (λ w. ground arith)

  pub list_audit_logs-Upholds :
      (p : Platform) (f : AuditFilter) (limit offset : ℤ)
      → Upholds P (Audit.list_audit_logs p f limit offset)
  unfolding Audit.list_audit_logs
  list_audit_logs-Upholds p f limit offset =
      rows-Upholds P _ (λ w a t e. paged_reads limit offset _ w a t e)

  pub list_projects-Upholds : (oid : String) → Upholds P (Projects.list_projects oid)
  unfolding Projects.list_projects
  list_projects-Upholds oid = still-Upholds _ (λ w. ground arith)

  pub get_project-Upholds : (oid id : String) → Upholds P (Projects.get_project oid id)
  unfolding Projects.get_project
  get_project-Upholds oid id = rows-Upholds P _ (λ w a t e. one_reads w _ a t e)

  pub list_files-Upholds :
      (oid : String) (limit offset : ℤ) → Upholds P (Files.list_files oid limit offset)
  unfolding Files.list_files
  list_files-Upholds oid limit offset =
      rows-Upholds P _ (λ w a t e. paged_reads limit offset _ w a t e)

  pub get_file-Upholds : (oid id : String) → Upholds P (Files.get_file oid id)
  unfolding Files.get_file
  get_file-Upholds oid id = rows-Upholds P _ (λ w a t e. one_reads w _ a t e)

  pub get_active_endpoints-Upholds :
      (p : Platform) (oid : String) (events : List String)
      → Upholds P (Webhooks.get_active_endpoints_for_event p oid events)
  unfolding Webhooks.get_active_endpoints_for_event
  get_active_endpoints-Upholds p oid events = still-Upholds _ (λ w. ground arith)

  pub list_webhook_endpoints-Upholds :
      (oid : String) → Upholds P (Webhooks.list_webhook_endpoints oid)
  unfolding Webhooks.list_webhook_endpoints
  list_webhook_endpoints-Upholds oid = still-Upholds _ (λ w. ground arith)

  pub get_webhook_endpoint-Upholds :
      (oid id : String) → Upholds P (Webhooks.get_webhook_endpoint oid id)
  unfolding Webhooks.get_webhook_endpoint
  get_webhook_endpoint-Upholds oid id = rows-Upholds P _ (λ w a t e. one_reads w _ a t e)

  pub get_pending_deliveries-Upholds :
      (limit : ℕ) → Upholds P (Webhooks.get_pending_deliveries limit)
  unfolding Webhooks.get_pending_deliveries
  get_pending_deliveries-Upholds limit = still-Upholds _ (λ w. ground arith)

  pub get_subscription_by_org-Upholds :
      (oid : String) → Upholds P (Subscriptions.get_subscription_by_org oid)
  unfolding Subscriptions.get_subscription_by_org
  get_subscription_by_org-Upholds oid = rows-Upholds P _ (λ w a t e. one_reads w _ a t e)
