-- ===== src/Http/Middleware/Auth.antt =====
-- internal/http/middleware/auth.go
pub mod Guard
use vergo.Prelude.{String, ◌==◌, ◌&&◌, Bool, true, false, Option, none, some, if◌then◌else◌}
use vergo.Prelude.Text.{has_lower_prefix, has_prefix, skip, trim_space}
use vergo.Platform.{Platform}
use vergo.Config.{Config}
use vergo.Db.{Act, pure, raise, or_fail, ◌>>=◌}
use vergo.Auth.Jwt.{parse}
use vergo.Domain.ApiKey.{LookupResult, validate}
use vergo.Http.Gin.{Request, Context, Response, Body, reply, fails, require}

-- The token of the Authorization header.
unfoldable pub bearer_token : String → Act Response String
unfolding has_lower_prefix skip trim_space
bearer_token h =
    if has_lower_prefix h "bearer "
    then (let token = trim_space (skip 7 h) in
        if token == "" then raise (reply 401 (Body.error "missing_bearer")) else pure token)
    else raise (reply 401 (Body.error "missing_bearer"))

unfoldable pub is_api_key : String → Bool
unfolding has_prefix
is_api_key token = has_prefix token "sk_"

module _ (p : Platform) (cfg : Config) where
  -- A token that begins with sk_, where a key service is given.
  unfoldable pub auth_api_key : String → Context → Act Response Context
  unfolding validate
  auth_api_key token c = do
    result ← or_fail (fails 500 "key_validation_failed") (validate p token)
    key ← require (reply 401 (Body.error "invalid_api_key")) result
    pure (record c { user_id = some key.key_id; org_id = some key.org_id; api_key_auth = true })

  unfoldable pub auth_jwt : String → Context → Act Response Context
  unfolding parse
  auth_jwt token c = do
    claims ← or_fail (fails 401 "invalid_token") (parse p token cfg.jwt_access_secret)
    pure (record c { user_id = some claims.user_id })

  -- `keys` says whether a key service is given.
  unfoldable pub auth_with_api_keys : Bool → Request → Context → Act Response Context
  unfolding bearer_token is_api_key auth_api_key auth_jwt
  auth_with_api_keys keys r c = do
    token ← bearer_token r.authorization
    if is_api_key token && keys then auth_api_key token c else auth_jwt token c

  unfoldable pub auth : Request → Context → Act Response Context
  unfolding auth_with_api_keys
  auth r c = auth_with_api_keys false r c
