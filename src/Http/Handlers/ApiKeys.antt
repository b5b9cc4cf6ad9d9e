-- ===== src/Http/Handlers/ApiKeys.antt =====
-- internal/http/handlers/apikeys.go
use vergo.Prelude.{ℕ, String, Option}
use vergo.Prelude.Json.{str, obj, field, end}
use vergo.Platform.{Platform}
use vergo.Db.{pure, ignore, or_fail, ◌>>=◌, ◌>>◌}
use vergo.Domain.ApiKey
use vergo.Domain.Audit.{add_event, no_metadata}
use vergo.Http.Gin.{
  Context, Body, Handler, Params, param, reply, fails, bind, or_empty, user_id, org_id,
}
use vergo.Http.Handlers.Orgs.{event, after}

pub record CreateKeyIn : Type 0 where
  pub name : String
  pub expires_at : Option ℕ

module _ (p : Platform) where
  unfoldable pub create : Context → Option CreateKeyIn → Handler
  unfolding user_id org_id ApiKey.create add_event
  create c body = do
    let uid = or_empty (user_id c)
    let oid = or_empty (org_id c)
    input ← bind body
    result ←
        or_fail (fails 500 "create_failed") (ApiKey.create p oid uid input.name input.expires_at)
    ignore (
        add_event (
          event oid uid "api_key.created" "api_key" result.api_key.id
            (after (obj (field "name" (str input.name) end)))))
    pure (reply 201 (Body.api_key result))

unfoldable pub list : Context → Handler
unfolding org_id ApiKey.list
list c = do
  keys ← or_fail (fails 500 "list_failed") (ApiKey.list (or_empty (org_id c)))
  pure (reply 200 (Body.api_keys keys))

unfoldable pub revoke : Context → Params → Handler
unfolding user_id org_id param ApiKey.revoke add_event
revoke c ps = do
  let oid = or_empty (org_id c)
  let id = param "id" ps
  or_fail (fails 500 "revoke_failed") (ApiKey.revoke oid id)
  ignore (add_event (event oid (or_empty (user_id c)) "api_key.revoked" "api_key" id no_metadata))
  pure (reply 204 Body.empty)
