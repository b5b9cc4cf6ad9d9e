-- ===== src/Domain/Upkeep/Accounts.antt =====
-- The services of accounts, organizations and keys that change the tables uphold what their
-- statements do.
use vergo.Prelude.{
  ℕ, String, true, false, Option, refl, sym, subst, arith, ◌≡◌, inl, inr, Bool-cases,
}
use vergo.Platform.{Platform}
use vergo.Db.{Tables, World, Res, Err, ok, err}
use vergo.Db.Rows
use vergo.Db.Rows.{PasswordResetToken, WebhookEndpoint}
use vergo.Db.Upkeep.{Upholds, upkeep, transact-Upholds, still-Upholds}
use vergo.Repo.Keys.{get_api_key_by_hash, touch_api_key_last_used}
use vergo.Repo.Upkeep.{Laws, get_password_reset_by_hash-Upholds, get_api_key_by_hash-Upholds}
use vergo.Auth.RefreshStore
use vergo.Auth.ResetStore
use vergo.Domain.User
use vergo.Domain.Org
use vergo.Domain.UserCtx
use vergo.Domain.ApiKey

module _ (p : Platform) {P : Tables → Type 0} (laws : Laws p P) where
  pub signup-Upholds : (email password : String) → Upholds P (User.signup p email password)
  unfolding User.signup
  signup-Upholds email password = search (upkeep, laws.insert_user) depth 20 fits 5000

  pub update_password-Upholds : (uid hash : String) → Upholds P (User.update_password uid hash)
  unfolding User.update_password
  update_password-Upholds uid hash = laws.update_user_password uid hash

  pub org_create-Upholds : (name uid : String) → Upholds P (Org.create p name uid)
  unfolding Org.create
  org_create-Upholds name uid =
      search (upkeep, transact-Upholds, laws.insert_org, laws.upsert_member) depth 20 fits 5000

  pub add_member-Upholds : (oid uid role : String) → Upholds P (Org.add_member oid uid role)
  unfolding Org.add_member
  add_member-Upholds oid uid role = laws.upsert_member oid uid role

  pub update_member-Upholds : (oid uid role : String) → Upholds P (Org.update_member oid uid role)
  unfolding Org.update_member
  update_member-Upholds oid uid role = search (upkeep, laws.update_member_role) depth 12 fits 5000

  pub remove_member-Upholds : (oid uid : String) → Upholds P (Org.remove_member oid uid)
  unfolding Org.remove_member
  remove_member-Upholds oid uid = laws.delete_member oid uid

  pub org_delete-Upholds : (oid : String) → Upholds P (Org.delete oid)
  unfolding Org.delete
  org_delete-Upholds oid = laws.delete_org oid

  pub set_active_org-Upholds : (uid oid : String) → Upholds P (UserCtx.set_active_org uid oid)
  unfolding UserCtx.set_active_org
  set_active_org-Upholds uid oid = laws.upsert_active_org uid oid

  pub save_refresh-Upholds :
      (jti uid token : String) (at : ℕ) (from : Option String)
      → Upholds P (RefreshStore.save_refresh p jti uid token at from)
  unfolding RefreshStore.save_refresh
  save_refresh-Upholds jti uid token at from = laws.insert_refresh_token jti uid _ at from

  pub revoke-Upholds : (jti : String) → Upholds P (RefreshStore.revoke jti)
  unfolding RefreshStore.revoke
  revoke-Upholds jti = laws.revoke_token jti

  pub revoke_all-Upholds : (uid : String) → Upholds P (RefreshStore.revoke_all_for_user uid)
  unfolding RefreshStore.revoke_all_for_user
  revoke_all-Upholds uid = laws.revoke_all_user_tokens uid

  pub create_reset_token-Upholds : (uid : String) → Upholds P (ResetStore.create_reset_token p uid)
  unfolding ResetStore.create_reset_token
  create_reset_token-Upholds uid =
      search (upkeep, laws.create_password_reset_token) depth 20 fits 5000

  consume_row-Upholds : (row : PasswordResetToken) → Upholds P (ResetStore.consume_row p row)
  unfolding ResetStore.consume_row
  consume_row-Upholds row = search (upkeep, laws.mark_password_reset_used) depth 20 fits 5000

  pub validate_and_consume-Upholds :
      (token : String) → Upholds P (ResetStore.validate_and_consume p token)
  unfolding ResetStore.validate_and_consume
  validate_and_consume-Upholds token =
      search (upkeep, get_password_reset_by_hash-Upholds, consume_row-Upholds) depth 20 fits 5000

  pub api_key_create-Upholds :
      (oid uid name : String) (at : Option ℕ) → Upholds P (ApiKey.create p oid uid name at)
  unfolding ApiKey.create
  api_key_create-Upholds oid uid name at = search (upkeep, laws.create_api_key) depth 20 fits 5000

  pub api_key_revoke-Upholds : (oid id : String) → Upholds P (ApiKey.revoke oid id)
  unfolding ApiKey.revoke
  api_key_revoke-Upholds oid id = laws.revoke_api_key oid id

  found_key-expired :
      (row : Rows.ApiKey) (w : World)
      → ApiKey.is_expired row w.now ≡ true
      → (ApiKey.found_key p row w).1 ≡ w
  unfolding ApiKey.found_key
  found_key-expired row w e = ground (arith, e)

  found_key-touched :
      (row : Rows.ApiKey) (w : World)
      → ApiKey.is_expired row w.now ≡ false
      → (ApiKey.found_key p row w).1 ≡ (touch_api_key_last_used row.id w).1
  unfolding ApiKey.found_key
  found_key-touched row w e = ground (arith, e)

  found_key-Upholds : (row : Rows.ApiKey) → Upholds P (ApiKey.found_key p row)
  found_key-Upholds row = record {
    at = λ w h. elim (Bool-cases (ApiKey.is_expired row w.now)) [
      | inl e ↦ subst (λ v. P v.db) (sym (found_key-expired row w e)) h
      | inr e ↦
          subst (λ v. P v.db) (sym (found_key-touched row w e))
            ((laws.touch_api_key_last_used row.id).at w h)
    ];
  }

  validated-Upholds : (r : Res Err Rows.ApiKey) → Upholds P (ApiKey.validated p r)
  unfolding ApiKey.validated
  validated-Upholds (ok row) = found_key-Upholds row
  validated-Upholds (err Err.no_rows) = still-Upholds _ (λ w. refl)
  validated-Upholds (err e) = still-Upholds _ (λ w. refl)

  pub validate-Upholds : (key : String) → Upholds P (ApiKey.validate p key)
  unfolding ApiKey.validate
  validate-Upholds key = record {
    at = λ w h.
        let found = get_api_key_by_hash (p.sha256_hex key) w in
        (validated-Upholds found.0).at found.1
          ((get_api_key_by_hash-Upholds {P = P} (p.sha256_hex key)).at w h);
  }
