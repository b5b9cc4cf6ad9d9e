-- ===== src/Domain/Webhook.antt =====
-- internal/domain/webhook/service.go
pub mod Dispatcher
pub mod Matching
use vergo.Prelude.{
  ℕ, String, Bool, Option, none, some, List, [], ◌∷◌, map, leb, ltb, ◌&&◌, if◌then◌else◌,
}
use vergo.Prelude.Text.{append}
use vergo.Platform.{Platform}
use vergo.Db.{
  Act, Err, Res, World, WebhookRequest, ok, err, pure, raise, lift, draw, attempt, ◌>>=◌, ◌>>◌,
}
use vergo.Db.Rows
use vergo.Repo.Webhooks.{
  create_webhook_endpoint, list_webhook_endpoints, update_webhook_endpoint,
  get_active_endpoints_for_event, insert_delivery, get_webhook_endpoint,
}
use vergo.Auth.Jwt.{or_error}

pub record Endpoint : Type 0 where
  pub id : String
  pub org_id : String
  pub url : String
  pub events : List String
  pub active : Bool
  pub created_at : ℕ
  pub updated_at : ℕ

abbrev of_row : Rows.WebhookEndpoint → Endpoint
of_row r = record {
  id = r.id;
  org_id = r.org_id;
  url = r.url;
  events = r.events;
  active = r.active;
  created_at = r.created_at;
  updated_at = r.updated_at;
}

-- The answer to a request: a status from 200 to 299 is a success.
abbrev pub outcome : Option ℕ → Res Err (Unit {0})
outcome none = err Err.http_error
outcome (some status) =
    if leb 200 status && ltb status 300 then ok tt else err (Err.webhook_returned status)

abbrev pub next_answer : List (Option ℕ) → Option ℕ
next_answer [] = none
next_answer (a ∷ as') = a

abbrev rest_of : List (Option ℕ) → List (Option ℕ)
rest_of [] = []
rest_of (a ∷ as') = as'

-- client.Do
unfoldable pub send : WebhookRequest → Act Err (Unit {0})
send r w =
    (outcome (next_answer w.remote), record w { remote = rest_of w.remote; outbox = r ∷ w.outbox })

module _ (p : Platform) where
  unfoldable pub sign : String → String → String
  sign payload secret = p.hmac_hex payload secret

  abbrev pub signed : String → String → String → String → WebhookRequest
  signed url secret event payload = record {
    url = url;
    event = event;
    signature = append "sha256=" (sign payload secret);
    body = payload;
  }

  unfoldable pub deliver : String → String → String → String → Act Err (Unit {0})
  unfolding send
  deliver url secret event payload =
      if p.request_ok url then send (signed url secret event payload) else raise Err.request_error

  generate_secret : Act Err String
  generate_secret = do
    n ← draw
    hex ← lift (or_error Err.rand_error (p.rand_hex n))
    pure (append "whsec_" hex)

  unfoldable pub create_endpoint : String → String → List String → Act Err Endpoint
  unfolding generate_secret create_webhook_endpoint
  create_endpoint org_id url events = do
    secret ← generate_secret
    row ← create_webhook_endpoint p org_id url secret events
    pure (of_row row)

  -- A failed insert is logged, and the loop goes on.
  unfoldable pub insert_all : String → String → List Rows.WebhookEndpoint → Act Err (Unit {0})
  insert_all event payload [] = pure tt
  insert_all event payload (ep ∷ eps) =
      attempt (insert_delivery p ep.id event payload) >>= λ (_ : Res Err String).
      insert_all event payload eps

  unfoldable pub dispatch : String → String → String → Act Err (Unit {0})
  unfolding get_active_endpoints_for_event
  dispatch org_id event payload = do
    endpoints ← get_active_endpoints_for_event p org_id (event ∷ [])
    insert_all event payload endpoints

  unfoldable pub test_endpoint : String → String → Act Err (Unit {0})
  unfolding get_webhook_endpoint deliver
  test_endpoint org_id endpoint_id = do
    ep ← get_webhook_endpoint org_id endpoint_id
    deliver ep.url ep.secret "webhook.test"
        (append "{\"type\":\"webhook.test\",\"org_id\":\"" (append org_id "\"}"))

unfoldable pub list_endpoints : String → Act Err (List Endpoint)
unfolding list_webhook_endpoints
list_endpoints org_id = do rows ← list_webhook_endpoints org_id; pure (map of_row rows)

unfoldable pub update_endpoint : String → String → String → List String → Bool → Act Err (Unit {0})
unfolding update_webhook_endpoint
update_endpoint org_id id url events active = update_webhook_endpoint org_id id url events active
