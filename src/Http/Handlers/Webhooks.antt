-- ===== src/Http/Handlers/Webhooks.antt =====
-- internal/http/handlers/webhooks.go
use vergo.Prelude.{String, ◌==◌, Bool, Option, List, if◌then◌else◌}
use vergo.Platform.{Platform}
use vergo.Db.{pure, raise, or_fail, ◌>>=◌, ◌>>◌}
use vergo.Domain.Webhook
use vergo.Http.Gin.{
  Context, Body, Handler, Params, param, reply, fails, fails_detail, bind, or_empty, org_id,
}

pub record CreateEndpointIn : Type 0 where
  pub url : String
  pub events : List String

pub record UpdateEndpointIn : Type 0 where
  pub url : String
  pub events : List String
  pub active : Bool

module _ (p : Platform) where
  unfoldable pub create_endpoint : Context → Option CreateEndpointIn → Handler
  unfolding org_id Webhook.create_endpoint
  create_endpoint c body = do
    input ← bind body
    ep ←
        or_fail (fails 500 "create_failed")
          (Webhook.create_endpoint p (or_empty (org_id c)) input.url input.events)
    pure (reply 201 (Body.endpoint ep))

  -- The query parameter endpoint_id, "" where it is missing.
  unfoldable pub test : Context → String → Handler
  unfolding org_id Webhook.test_endpoint
  test c endpoint_id =
      if endpoint_id == "" then raise (reply 422 (Body.error "missing_endpoint_id")) else (do
        or_fail (fails_detail 500 "test_failed")
            (Webhook.test_endpoint p (or_empty (org_id c)) endpoint_id)
        pure (reply 200 (Body.status_text "delivered")))

unfoldable pub list_endpoints : Context → Handler
unfolding org_id Webhook.list_endpoints
list_endpoints c = do
  eps ← or_fail (fails 500 "list_failed") (Webhook.list_endpoints (or_empty (org_id c)))
  pure (reply 200 (Body.endpoints eps))

unfoldable pub update_endpoint : Context → Params → Option UpdateEndpointIn → Handler
unfolding org_id param Webhook.update_endpoint
update_endpoint c ps body = do
  input ← bind body
  or_fail (fails 500 "update_failed") (
      Webhook.update_endpoint (or_empty (org_id c)) (param "id" ps) input.url input.events
        input.active)
  pure (reply 204 Body.empty)
