-- ===== src/Http/Handlers/Auth.antt =====
-- internal/http/handlers/auth.go
pub mod History
pub mod Rotation
pub mod SingleUse
pub mod Pairs
pub mod Race
pub mod Reset
use vergo.Prelude.{String, ◌==◌, Option, none, some, not, if◌then◌else◌}
use vergo.Platform.{Platform, Claims}
use vergo.Config.{Config}
use vergo.Db.{
  Act, Err, Res, ok, err, pure, raise, lift, attempt, draw, ignore, or_fail, ◌>>=◌, ◌>>◌,
}
use vergo.Auth.Jwt.{new_access_token, new_refresh_token, parse, or_error}
use vergo.Auth.RefreshStore.{save_refresh, is_valid, revoke, revoke_all_for_user}
use vergo.Auth.ResetStore.{create_reset_token, validate_and_consume}
use vergo.Domain.User.{User, get_by_email, update_password}
use vergo.Domain.User
use vergo.Http.Gin.{Context, Response, Body, Handler, reply, fails, bind, require, user_id}

pub record Creds : Type 0 where
  pub email : String
  pub password : String

pub record RefreshReq : Type 0 where
  pub refresh_token : String

pub record ForgotIn : Type 0 where
  pub email : String

pub record ResetIn : Type 0 where
  pub token : String
  pub new_password : String

abbrev pub reset_sent : Response
reset_sent = reply 200 (Body.message "if the email exists, a reset link was sent")

abbrev pub invalid_refresh : Response
invalid_refresh = reply 401 (Body.error "invalid_refresh")

-- `!ok`, with the user of a valid token.
abbrev pub valid_user : {A : Type 0} → Option A → Res Response A
valid_user none = err invalid_refresh
valid_user (some v) = ok v

module _ (p : Platform) (cfg : Config) where
  -- The tail that Signup and Login share: a token pair, whose refresh token is stored.
  unfoldable pub issue : User → Act Response Response
  issue u = do
    at ←
        or_fail (fails 500 "token_error")
          (new_access_token p u.id cfg.jwt_access_secret cfg.jwt_access_ttl_minutes)
    rt ←
        or_fail (fails 500 "token_error")
          (new_refresh_token p u.id cfg.jwt_refresh_secret cfg.jwt_refresh_ttl_days)
    or_fail (fails 500 "store_error") (save_refresh p rt.jti u.id rt.token rt.expires_at none)
    pure (reply 200 (Body.user_tokens u.id u.email at rt.token))

  -- Signup answers with the error's own text.
  unfoldable pub signup : Option Creds → Handler
  signup body = do
    creds ← bind body
    u ← or_fail (λ e. reply 409 (Body.error_text e)) (User.signup p creds.email creds.password)
    r ← issue u
    pure (record r { status = 201 })

  unfoldable pub login : Option Creds → Handler
  login body = do
    creds ← bind body
    u ← or_fail (fails 401 "invalid_credentials") (User.login p creds.email creds.password)
    issue u

  -- err != nil || claims.TokenType != "refresh"
  unfoldable pub refresh_claims : String → Act Response Claims
  unfolding parse
  refresh_claims token = do
    claims ← or_fail (λ _. invalid_refresh) (parse p token cfg.jwt_refresh_secret)
    if claims.token_type == "refresh" then pure claims else raise invalid_refresh

  -- The new pair, whose refresh token is stored with the one that it replaces.
  unfoldable pub reissue : String → String → Handler
  reissue jti uid = do
    at ←
        or_fail (fails 500 "token_error")
          (new_access_token p uid cfg.jwt_access_secret cfg.jwt_access_ttl_minutes)
    rt ←
        or_fail (fails 500 "token_error")
          (new_refresh_token p uid cfg.jwt_refresh_secret cfg.jwt_refresh_ttl_days)
    or_fail (fails 500 "store_error") (save_refresh p rt.jti uid rt.token rt.expires_at (some jti))
    pure (reply 200 (Body.tokens at rt.token))

  -- Refresh from the revocation on: `_ = h.rs.Revoke` drops its error.
  unfoldable pub rotate : String → String → Handler
  rotate jti uid = do ignore (revoke jti); reissue jti uid

  unfoldable pub refresh : Option RefreshReq → Handler
  refresh body = do
    req ← bind body
    claims ← refresh_claims req.refresh_token
    found ← or_fail (λ _. invalid_refresh) (is_valid p claims.id req.refresh_token)
    v ← lift (valid_user found)
    rotate claims.id v.user_id

  unfoldable pub logout : Option RefreshReq → Handler
  logout body = do
    req ← bind body
    claims ← refresh_claims req.refresh_token
    ignore (revoke claims.id)
    pure (reply 204 Body.empty)

  -- The log line with the token is left out.
  unfoldable pub forgot_password : Option ForgotIn → Handler
  forgot_password body = do
    req ← bind body
    u ← or_fail (λ _. reset_sent) (get_by_email req.email)
    attempt (create_reset_token p u.id) >>= λ _. pure reset_sent

  unfoldable pub reset_password : Option ResetIn → Handler
  reset_password body = do
    req ← bind body
    uid ← or_fail (fails 401 "invalid_or_expired_token") (validate_and_consume p req.token)
    salt ← draw
    hash ←
        or_fail (fails 500 "hash_error")
          (lift (or_error Err.bcrypt_error (p.bcrypt_generate salt req.new_password)))
    or_fail (fails 500 "update_failed") (update_password uid hash)
    ignore (revoke_all_for_user uid)
    pure (reply 200 (Body.message "password_reset_successful"))

unfoldable pub logout_all : Context → Handler
logout_all c = do
  uid ← require (reply 401 (Body.error "missing_user")) (user_id c)
  ignore (revoke_all_for_user uid)
  pure (reply 204 Body.empty)
