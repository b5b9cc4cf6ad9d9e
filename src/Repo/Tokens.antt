-- ===== src/Repo/Tokens.antt =====
-- internal/repo/refresh_tokens.sql.go and password_resets.sql.go.
use vergo.Prelude.{
  ℕ, String, ◌==◌, ◌&&◌, ◌++◌, ◌∷◌, [], Bool, Option, none, some, not, is_some, if◌then◌else◌,
}
use vergo.Table.{find, update}
use vergo.Platform.{Platform}
use vergo.Db.{Act, Err, Tables, ok, err, query, one, draw, ◌>>=◌}
use vergo.Db.Rows.{RefreshToken, PasswordResetToken}
use vergo.Repo.Orgs.{is_user}

abbrev pub is_token : Tables → String → Bool
is_token t id = is_some (find (λ r. r.id == id) t.refresh_tokens)

-- rotated_from is null or names a token.
abbrev rotated_ok : Tables → Option String → Bool
rotated_ok t none = Bool.true
rotated_ok t (some id) = is_token t id

unfoldable pub insert_refresh_token :
    String → String → String → ℕ → Option String → Act Err (Unit {0})
unfolding query
insert_refresh_token id user_id token_hash expires_at rotated_from = query λ w.
    if is_token w.db id
    then err Err.unique_violation
    else if is_user w.db user_id && rotated_ok w.db rotated_from
    then ok (
      tt,
      record w.db {
        refresh_tokens =
            w.refresh_tokens
            ++ record {
              id = id;
              user_id = user_id;
              token_hash = token_hash;
              expires_at = expires_at;
              revoked_at = none;
              rotated_from = rotated_from;
              created_at = w.now;
            }
              ∷ [];
      },
    )
    else err Err.fk_violation

unfoldable pub get_refresh_token : String → Act Err RefreshToken
unfolding query
get_refresh_token id = query λ w. one w (find (λ r. r.id == id) w.refresh_tokens)

-- SET revoked_at = NOW()
abbrev pub revoked : ℕ → RefreshToken → RefreshToken
revoked now r = record r { revoked_at = some now }

abbrev pub unrevoked_id : String → RefreshToken → Bool
unrevoked_id id r = r.id == id && not (is_some r.revoked_at)

abbrev pub unrevoked_user : String → RefreshToken → Bool
unrevoked_user user_id r = r.user_id == user_id && not (is_some r.revoked_at)

unfoldable pub revoke_token : String → Act Err (Unit {0})
unfolding query
revoke_token id = query λ w.
    ok (
      tt,
      record w.db { refresh_tokens = update (unrevoked_id id) (revoked w.now) w.refresh_tokens },
    )

unfoldable pub revoke_all_user_tokens : String → Act Err (Unit {0})
unfolding query
revoke_all_user_tokens user_id = query λ w. ok (
  tt,
  record w.db { refresh_tokens = update (unrevoked_user user_id) (revoked w.now) w.refresh_tokens },
)

module _ (p : Platform) where
  unfoldable pub create_password_reset_token : String → String → ℕ → Act Err (Unit {0})
  unfolding query
  create_password_reset_token user_id token_hash expires_at = draw >>= λ n. query λ w.
      if is_some (find (λ r. r.id == p.uuid n) w.password_reset_tokens)
      then err Err.unique_violation
      else if is_some (find (λ r. r.token_hash == token_hash) w.password_reset_tokens)
      then err Err.unique_violation
      else if is_user w.db user_id
      then ok (
        tt,
        record w.db {
          password_reset_tokens =
              w.password_reset_tokens
              ++ record {
                id = p.uuid n;
                user_id = user_id;
                token_hash = token_hash;
                expires_at = expires_at;
                used_at = none;
                created_at = w.now;
              }
                ∷ [];
        },
      )
      else err Err.fk_violation

abbrev pub unused_hash : String → PasswordResetToken → Bool
unused_hash token_hash r = r.token_hash == token_hash && not (is_some r.used_at)

unfoldable pub get_password_reset_by_hash : String → Act Err PasswordResetToken
unfolding query
get_password_reset_by_hash token_hash =
    query λ w. one w (find (unused_hash token_hash) w.password_reset_tokens)

unfoldable pub mark_password_reset_used : String → Act Err (Unit {0})
unfolding query
mark_password_reset_used id = query λ w. ok (
  tt,
  record w.db {
    password_reset_tokens =
        update (λ r. r.id == id) (λ r. record r { used_at = some w.now }) w.password_reset_tokens;
  },
)
