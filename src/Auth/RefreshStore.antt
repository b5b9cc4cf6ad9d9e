-- ===== src/Auth/RefreshStore.antt =====
-- internal/auth/store_pg.go
pub mod Revocation
use vergo.Prelude.{ℕ, String, ◌==◌, not, ltb, is_some, Option, none, some, if◌then◌else◌}
use vergo.Platform.{Platform}
use vergo.Db.{Act, Err, Res, World, ok, err}
use vergo.Db.Rows.{RefreshToken}
use vergo.Repo.Tokens.{
  insert_refresh_token, get_refresh_token, revoke_token, revoke_all_user_tokens,
}

-- The answer of `IsValid` when it is true: the user and the expiry.
pub record ValidToken : Type 0 where
  pub user_id : String
  pub expires_at : ℕ

unfoldable pub revoke : String → Act Err (Unit {0})
unfolding revoke_token
revoke jti = revoke_token jti

unfoldable pub revoke_all_for_user : String → Act Err (Unit {0})
unfolding revoke_all_user_tokens
revoke_all_for_user user_id = revoke_all_user_tokens user_id

module _ (p : Platform) where
  unfoldable pub save_refresh : String → String → String → ℕ → Option String → Act Err (Unit {0})
  unfolding insert_refresh_token
  save_refresh jti user_id token expires_at rotated_from =
      insert_refresh_token jti user_id (p.sha256_hex token) expires_at rotated_from

  -- The tests on the row that was read.
  unfoldable pub check_row : String → ℕ → RefreshToken → Option ValidToken
  check_row token now row =
      if is_some row.revoked_at
      then none
      else if ltb row.expires_at now
      then none
      else if not (row.token_hash == p.sha256_hex token)
      then none
      else some (record { user_id = row.user_id; expires_at = row.expires_at })

  check_result : String → Res Err RefreshToken → World → Res Err (Option ValidToken)
  unfolding check_row
  check_result token (ok row) w = ok (check_row token w.now row)
  check_result token (err Err.no_rows) w = ok none
  check_result token (err e) w = err e

  unfoldable pub is_valid : String → String → Act Err (Option ValidToken)
  unfolding get_refresh_token check_result
  is_valid jti token w = let (r, v) = get_refresh_token jti w in (check_result token r v, v)
