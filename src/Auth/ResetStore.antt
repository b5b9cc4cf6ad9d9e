-- ===== src/Auth/ResetStore.antt =====
-- internal/auth/reset.go
use vergo.Prelude.{String, ◌+◌, ltb, if◌then◌else◌}
use vergo.Platform.{Platform}
use vergo.Db.{Act, Err, draw, pure, raise, gets, lift, ignore, or_fail, ◌>>=◌, ◌>>◌}
use vergo.Db.Rows.{PasswordResetToken}
use vergo.Repo.Tokens.{
  create_password_reset_token, get_password_reset_by_hash, mark_password_reset_used,
}
use vergo.Auth.Jwt.{hour, or_error}

abbrev invalid_if_missing : Err → Err
invalid_if_missing Err.no_rows = Err.reset_token_invalid
invalid_if_missing e = e

module _ (p : Platform) where
  generate_reset_token : Act Err String
  generate_reset_token = do n ← draw; lift (or_error Err.rand_error (p.rand_hex n))

  unfoldable pub create_reset_token : String → Act Err String
  unfolding generate_reset_token create_password_reset_token
  create_reset_token user_id = do
    plain ← generate_reset_token
    now ← gets (λ w. w.now)
    create_password_reset_token p user_id (p.sha256_hex plain) (now + hour)
    pure plain

  -- The part after the row was read: `_ = MarkPasswordResetUsed` drops its error.
  unfoldable pub consume_row : PasswordResetToken → Act Err String
  unfolding mark_password_reset_used
  consume_row row = do
    now ← gets (λ w. w.now)
    if ltb row.expires_at now
        then raise Err.reset_token_invalid
        else do ignore (mark_password_reset_used row.id); pure row.user_id

  unfoldable pub validate_and_consume : String → Act Err String
  unfolding get_password_reset_by_hash consume_row
  validate_and_consume token = do
    row ← or_fail invalid_if_missing (get_password_reset_by_hash (p.sha256_hex token))
    consume_row row
