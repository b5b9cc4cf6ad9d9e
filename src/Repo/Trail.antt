-- ===== src/Repo/Trail.antt =====
-- The tables that no statement of the program deletes from: users, tokens, audit log.
use vergo.Prelude.{ℕ, String, ◌==◌, List, [], ◌∷◌, ◌++◌, Option, none, some, is_some, false, ◌≡◌}
use vergo.Table.{find, update}
use vergo.Platform.{Platform}
use vergo.Db.{Tables, World}
use vergo.Db.Rows.{AuditLog, PasswordResetToken, Project, RefreshToken, User}
use vergo.Db.Upkeep.{Leaves, upkeep, statements}
use vergo.Repo.Tokens.{revoked, unrevoked_id, unrevoked_user}
use vergo.Repo.Upkeep.{Laws}
use vergo.Repo.Users.{insert_user, update_user_password}
use vergo.Repo.Orgs.{insert_org, delete_org, upsert_member, update_member_role, delete_member}
use vergo.Repo.Contexts.{upsert_active_org}
use vergo.Repo.Tokens.{
  insert_refresh_token, revoke_token, revoke_all_user_tokens, create_password_reset_token,
  mark_password_reset_used,
}
use vergo.Repo.Keys.{create_api_key, revoke_api_key, touch_api_key_last_used}
use vergo.Repo.Audit.{insert_audit_log}
use vergo.Repo.Projects.{insert_project, update_project, delete_project, returning}
use vergo.Repo.Files.{insert_file, delete_file}
use vergo.Repo.Webhooks.{
  create_webhook_endpoint, update_webhook_endpoint, insert_delivery, mark_delivered, mark_retry,
}
use vergo.Repo.Subscriptions.{upsert_subscription, update_subscription_status, cancel_subscription}

-- What the statements on these tables do to their rows keeps a property of the rows.
pub record Trail
    (P : List User → List RefreshToken → List AuditLog → List PasswordResetToken → Type 0)
    : Type 0 where
  pub append_user :
      (us : List User) (ts : List RefreshToken) (ls : List AuditLog) (rs : List PasswordResetToken)
      (u : User)
      → P us ts ls rs
      → P (us ++ u ∷ []) ts ls rs
  pub set_password :
      (us : List User) (ts : List RefreshToken) (ls : List AuditLog) (rs : List PasswordResetToken)
      (id hash : String)
      → P us ts ls rs
      → P (update (λ u. u.id == id) (λ u. record u { password_hash = hash }) us) ts ls rs
  pub append_token :
      (us : List User) (ts : List RefreshToken) (ls : List AuditLog) (rs : List PasswordResetToken)
      (t : RefreshToken)
      → P us ts ls rs
      → P us (ts ++ t ∷ []) ls rs
  pub revoke_one :
      (us : List User) (ts : List RefreshToken) (ls : List AuditLog) (rs : List PasswordResetToken)
      (jti : String) (now : ℕ)
      → P us ts ls rs
      → P us (update (unrevoked_id jti) (revoked now) ts) ls rs
  pub revoke_all :
      (us : List User) (ts : List RefreshToken) (ls : List AuditLog) (rs : List PasswordResetToken)
      (uid : String) (now : ℕ)
      → P us ts ls rs
      → P us (update (unrevoked_user uid) (revoked now) ts) ls rs
  pub append_event :
      (us : List User) (ts : List RefreshToken) (ls : List AuditLog) (rs : List PasswordResetToken)
      (l : AuditLog)
      → P us ts ls rs
      → P us ts (ls ++ l ∷ []) rs
  pub append_reset :
      (us : List User) (ts : List RefreshToken) (ls : List AuditLog) (rs : List PasswordResetToken)
      (r : PasswordResetToken)
      → is_some (find (λ x. x.token_hash == r.token_hash) rs) ≡ false
      → P us ts ls rs
      → P us ts ls (rs ++ r ∷ [])
  pub mark_used :
      (us : List User) (ts : List RefreshToken) (ls : List AuditLog) (rs : List PasswordResetToken)
      (id : String) (now : ℕ)
      → P us ts ls rs
      → P us ts ls (update (λ r. r.id == id) (λ r. record r { used_at = some now }) rs)

module _
    (P : List User → List RefreshToken → List AuditLog → List PasswordResetToken → Type 0) where
  abbrev Holds : Tables → Type 0
  Holds t = P t.users t.refresh_tokens t.audit_logs t.password_reset_tokens

  returning-Holds :
      (w : World) (rows : List Project) (found : Option Project)
      → Holds w.db
      → Leaves Holds (returning rows found w)
  returning-Holds w rows none h = tt
  returning-Holds w rows (some r) h = h

  pub trail-laws : Trail P → (p : Platform) → Laws p Holds
  unfolding insert_user update_user_password insert_org delete_org upsert_member update_member_role
      delete_member upsert_active_org insert_refresh_token revoke_token revoke_all_user_tokens
      create_password_reset_token mark_password_reset_used create_api_key revoke_api_key
      touch_api_key_last_used insert_audit_log insert_project update_project delete_project
      insert_file delete_file create_webhook_endpoint update_webhook_endpoint insert_delivery
      mark_delivered mark_retry upsert_subscription update_subscription_status cancel_subscription
  trail-laws trail p = record {
    insert_user =
        λ id email hash at. search (upkeep, statements, trail.append_user) depth 20 fits 5000;
    update_user_password =
        λ id hash. search (upkeep, statements, trail.set_password) depth 20 fits 5000;
    insert_org = λ id name owner at. search (upkeep, statements) depth 20 fits 5000;
    delete_org = λ id. search (upkeep, statements) depth 20 fits 5000;
    upsert_member = λ oid uid role. search (upkeep, statements) depth 20 fits 5000;
    update_member_role = λ oid uid role. search (upkeep, statements) depth 20 fits 5000;
    delete_member = λ oid uid. search (upkeep, statements) depth 20 fits 5000;
    upsert_active_org = λ uid oid. search (upkeep, statements) depth 20 fits 5000;
    insert_refresh_token =
        λ id uid hash at from. search (upkeep, statements, trail.append_token) depth 20 fits 5000;
    revoke_token = λ id. search (upkeep, statements, trail.revoke_one) depth 20 fits 5000;
    revoke_all_user_tokens =
        λ uid. search (upkeep, statements, trail.revoke_all) depth 20 fits 5000;
    create_password_reset_token =
        λ uid hash at. search (upkeep, statements, trail.append_reset) depth 20 fits 5000;
    mark_password_reset_used =
        λ id. search (upkeep, statements, trail.mark_used) depth 20 fits 5000;
    create_api_key = λ oid name prefix hash uid at. search (upkeep, statements) depth 20 fits 5000;
    revoke_api_key = λ oid id. search (upkeep, statements) depth 20 fits 5000;
    touch_api_key_last_used = λ id. search (upkeep, statements) depth 20 fits 5000;
    insert_audit_log = λ row. search (upkeep, statements, trail.append_event) depth 20 fits 5000;
    insert_project = λ id oid name description uid. search (upkeep, statements) depth 20 fits 5000;
    update_project =
        λ oid id name description. search (upkeep, statements, returning-Holds) depth 20 fits 5000;
    delete_project = λ oid id. search (upkeep, statements) depth 20 fits 5000;
    insert_file = λ row. search (upkeep, statements) depth 20 fits 5000;
    delete_file = λ oid id. search (upkeep, statements) depth 20 fits 5000;
    create_webhook_endpoint =
        λ oid url secret events. search (upkeep, statements) depth 20 fits 5000;
    update_webhook_endpoint =
        λ oid id url events active. search (upkeep, statements) depth 20 fits 5000;
    insert_delivery = λ id event payload. search (upkeep, statements) depth 20 fits 5000;
    mark_delivered = λ id status response. search (upkeep, statements) depth 20 fits 5000;
    mark_retry = λ id status response at. search (upkeep, statements) depth 20 fits 5000;
    upsert_subscription = λ a. search (upkeep, statements) depth 20 fits 5000;
    update_subscription_status =
        λ id status plan end_at. search (upkeep, statements) depth 20 fits 5000;
    cancel_subscription = λ id. search (upkeep, statements) depth 20 fits 5000;
  }
