-- ===== src/Http/Tenancy/Handlers.antt =====
-- What the handlers leave alone: the rows of every organization but that of the context.
use vergo.Prelude.{String, ◌==◌, ◌≡◌, refl, arith, Option, none, some, ap}
use vergo.Prelude.Json.{str, obj, field, end}
use vergo.Platform.{Platform}
use vergo.Db.{World, Act, ignore, attempt, pure, raise, or_fail, ◌>>=◌}
use vergo.Db.Keeps.{Keeps, Keeps-still, Keeps-part, Keeps-bind, Keeps-if}
use vergo.Domain.Project
use vergo.Domain.ApiKey
use vergo.Domain.Webhook
use vergo.Domain.Audit.{Event, add_event, no_metadata}
use vergo.Domain.Billing.{create_checkout_session}
use vergo.Http.Gin.{
  Context, Params, Body, Handler, Response, param, reply, fails, fails_detail, bind, require,
  org_id, user_id, or_empty,
}
use vergo.Http.Handlers.Orgs.{event, before, after}
use vergo.Http.Handlers.Projects
use vergo.Http.Handlers.Projects.{ProjectIn}
use vergo.Http.Handlers.ApiKeys
use vergo.Http.Handlers.ApiKeys.{CreateKeyIn}
use vergo.Http.Handlers.Billing
use vergo.Http.Handlers.Billing.{CheckoutIn}
use vergo.Http.Handlers.Webhooks
use vergo.Http.Handlers.Webhooks.{CreateEndpointIn, UpdateEndpointIn}
use vergo.Http.Tenancy.{Outside, outside}
use vergo.Http.Tenancy.Services.{
  outside-create_project, outside-update_project, outside-delete_project, outside-add_event,
  outside-revoke_api_key, outside-update_endpoint, db-test_endpoint,
}
use vergo.Http.Tenancy.Creations.{outside-create_api_key, outside-create_endpoint}
use vergo.Http.Tenancy.Checkout.{outside-checkout}

-- The other organizations' rows are those of `v`.
abbrev pub Kept : String → Outside → World → Type 0
Kept oid v w = outside oid w.db ≡ v

db-get_project : (oid id : String) (w : World) → (Project.get oid id w).1.db ≡ w.db
unfolding Project.get
db-get_project oid id w = ground arith

module _ (oid : String) (v : Outside) where
  pub then-Keeps :
      {E A B : Type 0} (m : Act E A) (k : A → Act E B)
      → ((w : World) → outside oid (m w).1.db ≡ outside oid w.db)
      → ((a : A) → Keeps (Kept oid v) (k a))
      → Keeps (Kept oid v) (m >>= k)
  then-Keeps m k same rest =
      Keeps-bind (Kept oid v) m k (Keeps-part (λ w. outside oid w.db) (λ x. x ≡ v) m same) rest

  pub answers : {E A : Type 0} (m : Act E A) → ((w : World) → (m w).1 ≡ w) → Keeps (Kept oid v) m
  answers m still = Keeps-still (Kept oid v) m still

-- A handler goes on with the organization of the context, or not at all.
pub require-Keeps :
    (x : Option String) (v : Outside) (r : Response) (k : String → Handler)
    → Keeps (Kept (or_empty x) v) (k (or_empty x))
    → Keeps (Kept (or_empty x) v) (require r x >>= k)
require-Keeps none v r k h = Keeps-still (Kept "" v) _ (λ w. refl)
require-Keeps (some oid) v r k h = h

module _ (p : Platform) (c : Context) (v : Outside) where
  abbrev here : String
  here = or_empty (org_id c)

  abbrev IsTenant : Handler → Type 0
  IsTenant h = Keeps (Kept here v) h

  -- The event of the context's organization and the answer.
  event-Keeps :
      (e : Event) (r : Response) → e.org_id ≡ here → IsTenant (ignore (add_event e) >>= λ _. pure r)
  event-Keeps e r h =
      then-Keeps here v (ignore (add_event e)) _ (λ w. outside-add_event p here w e h)
        λ _. answers here v (pure r) (λ w. refl)

  pub projects-create : (body : Option ProjectIn) → IsTenant (Projects.create p c body)
  unfolding Projects.create
  projects-create body = require-Keeps (org_id c) v _ _ (
      then-Keeps here v (require _ (user_id c)) _ (λ w. ground arith)
        λ uid.
          then-Keeps here v (bind body) _ (λ w. ground arith)
            λ input.
              then-Keeps here v
                (or_fail (fails_detail 500 "create_fail")
                  (Project.create p here input.name input.description uid))
                _ (λ w. outside-create_project p here w input.name input.description uid)
                λ r.
                  event-Keeps
                    (event here uid "project.created" "project" r.id
                      (after (Project.project_json r)))
                    (reply 201 (Body.project r)) refl)

  pub projects-update :
      (ps : Params) (body : Option ProjectIn) → IsTenant (Projects.update c ps body)
  unfolding Projects.update
  projects-update ps body = require-Keeps (org_id c) v _ _ (
      then-Keeps here v (attempt (Project.get here (param "id" ps))) _
        (λ w. ap (outside here) (db-get_project here (param "id" ps) w))
        λ old.
          then-Keeps here v (bind body) _ (λ w. ground arith)
            λ input.
              then-Keeps here v
                (or_fail (fails_detail 500 "not_found")
                  (Project.update here (param "id" ps) input.name input.description))
                _
                (λ w. outside-update_project p here w (param "id" ps) input.name input.description)
                λ r.
                  event-Keeps
                    (event here (or_empty (user_id c)) "project.updated" "project" (param "id" ps)
                      (Projects.both (Projects.or_zero old) r))
                    (reply 200 (Body.project r)) refl)

  pub projects-delete : (ps : Params) → IsTenant (Projects.delete c ps)
  unfolding Projects.delete
  projects-delete ps = require-Keeps (org_id c) v _ _ (
      then-Keeps here v (attempt (Project.get here (param "id" ps))) _
        (λ w. ap (outside here) (db-get_project here (param "id" ps) w))
        λ old.
          then-Keeps here v (or_fail (fails 404 "not_found") (Project.delete here (param "id" ps)))
            _ (λ w. outside-delete_project p here w (param "id" ps))
            λ _.
              event-Keeps
                (event here (or_empty (user_id c)) "project.deleted" "project" (param "id" ps)
                  (before (Project.project_json (Projects.or_zero old))))
                (reply 204 Body.empty) refl)

  pub api_keys-create : (body : Option CreateKeyIn) → IsTenant (ApiKeys.create p c body)
  unfolding ApiKeys.create
  api_keys-create body =
      then-Keeps here v (bind body) _ (λ w. ground arith)
        λ input.
          then-Keeps here v
            (or_fail (fails 500 "create_failed")
              (ApiKey.create p here (or_empty (user_id c)) input.name input.expires_at))
            _
            (λ w.
              outside-create_api_key p here w (or_empty (user_id c)) input.name input.expires_at)
            λ result.
              event-Keeps
                (event here (or_empty (user_id c)) "api_key.created" "api_key" result.api_key.id
                  (after (obj (field "name" (str input.name) end))))
                (reply 201 (Body.api_key result)) refl

  pub api_keys-revoke : (ps : Params) → IsTenant (ApiKeys.revoke c ps)
  unfolding ApiKeys.revoke
  api_keys-revoke ps =
      then-Keeps here v (or_fail (fails 500 "revoke_failed") (ApiKey.revoke here (param "id" ps))) _
        (λ w. outside-revoke_api_key p here w (param "id" ps))
        λ _.
          event-Keeps
            (event here (or_empty (user_id c)) "api_key.revoked" "api_key" (param "id" ps)
              no_metadata)
            (reply 204 Body.empty) refl

  pub billing-checkout : (body : Option CheckoutIn) → IsTenant (Billing.create_checkout p c body)
  unfolding Billing.create_checkout
  billing-checkout body =
      then-Keeps here v (bind body) _ (λ w. ground arith)
        λ input.
          then-Keeps here v
            (or_fail (fails 500 "checkout_failed") (
              create_checkout_session p here here input.success_url input.cancel_url
                input.price_id))
            _
            (λ w. outside-checkout p here w here input.success_url input.cancel_url input.price_id)
            λ url. answers here v (pure (reply 200 (Body.url url))) (λ w. refl)

  pub webhooks-create :
      (body : Option CreateEndpointIn) → IsTenant (Webhooks.create_endpoint p c body)
  unfolding Webhooks.create_endpoint
  webhooks-create body =
      then-Keeps here v (bind body) _ (λ w. ground arith)
        λ input.
          then-Keeps here v
            (or_fail (fails 500 "create_failed")
              (Webhook.create_endpoint p here input.url input.events))
            _ (λ w. outside-create_endpoint p here w input.url input.events)
            λ ep. answers here v (pure (reply 201 (Body.endpoint ep))) (λ w. refl)

  pub webhooks-update :
      (ps : Params) (body : Option UpdateEndpointIn) → IsTenant (Webhooks.update_endpoint c ps body)
  unfolding Webhooks.update_endpoint
  webhooks-update ps body =
      then-Keeps here v (bind body) _ (λ w. ground arith)
        λ input.
          then-Keeps here v
            (or_fail (fails 500 "update_failed")
              (Webhook.update_endpoint here (param "id" ps) input.url input.events input.active))
            _
            (λ w.
              outside-update_endpoint p here w (param "id" ps) input.url input.events input.active)
            λ _. answers here v (pure (reply 204 Body.empty)) (λ w. refl)

  pub webhooks-test : (endpoint_id : String) → IsTenant (Webhooks.test p c endpoint_id)
  unfolding Webhooks.test
  webhooks-test endpoint_id =
      Keeps-if (Kept here v) (endpoint_id == "") _ _
        (answers here v (raise (reply 422 (Body.error "missing_endpoint_id"))) (λ w. refl))
        (then-Keeps here v
          (or_fail (fails_detail 500 "test_failed") (Webhook.test_endpoint p here endpoint_id)) _
          (λ w. ap (outside here) (db-test_endpoint p here w endpoint_id))
          λ _. answers here v (pure (reply 200 (Body.status_text "delivered"))) (λ w. refl))
