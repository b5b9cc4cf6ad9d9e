-- ===== src/Http/Tenancy/Routes.antt =====
-- The routes of the router that act on the organization of the request.
use vergo.Prelude.{String, ◌≡◌, refl, sym, subst, [], ◌∷◌, arith, Option}
use vergo.Platform.{Platform}
use vergo.Config.{Config}
use vergo.Db.{World, ok, ◌>>=◌}
use vergo.Db.Keeps.{Keeps}
use vergo.Http.Gin.{Request, Context, Handler, org_id, or_empty}
use vergo.Db.Cases.{bind_cases}
use vergo.Http.Middleware.Rbac.{require_role}
use vergo.Http.Handlers.Projects
use vergo.Http.Handlers.Projects.{ProjectIn}
use vergo.Http.Handlers.ApiKeys
use vergo.Http.Handlers.ApiKeys.{CreateKeyIn}
use vergo.Http.Handlers.Billing
use vergo.Http.Handlers.Billing.{CheckoutIn}
use vergo.Http.Handlers.Webhooks
use vergo.Http.Handlers.Webhooks.{CreateEndpointIn, UpdateEndpointIn}
use vergo.Http.Router
use vergo.Http.Handlers.Storage
use vergo.Http.Handlers.Storage.{PresignPutIn, PresignGetIn, FileCreateIn}
use vergo.Http.Handlers.Audit
use vergo.Http.Handlers.Audit.{AuditQuery}
use vergo.Http.Tenancy.{Outside}
use vergo.Http.Tenancy.Handlers
use vergo.Http.Tenancy.Handlers.{Kept}
use vergo.Http.Tenancy.Files

-- The protected routes, but those of organizations and members, which act on the path's.
pub data TenantCall : Type 0 where
  list_projects list_api_keys get_subscription get_usage list_endpoints : TenantCall
  create_project : Option ProjectIn → TenantCall
  get_project delete_project revoke_api_key test_endpoint get_file delete_file : String → TenantCall
  update_project : String → Option ProjectIn → TenantCall
  list_audit : AuditQuery → TenantCall
  create_api_key : Option CreateKeyIn → TenantCall
  create_checkout : Option CheckoutIn → TenantCall
  create_endpoint : Option CreateEndpointIn → TenantCall
  update_endpoint : String → Option UpdateEndpointIn → TenantCall
  presign_put : Option PresignPutIn → TenantCall
  presign_get : Option PresignGetIn → TenantCall
  list_files : String → String → TenantCall
  create_file : Option FileCreateIn → TenantCall

role-world : (role : String) (c : Context) (w : World) → (require_role role c w).1 ≡ w
unfolding require_role
role-world role c w = ground arith

role-context :
    (role : String) (c c' : Context) (w : World) → (require_role role c w).0 ≡ ok c' → c ≡ c'
unfolding require_role
role-context role c c' w h = ground (arith, h)

-- The check of the role goes on with the same context.
role-Keeps :
    (role : String) (c : Context) (P : World → Type 0) (h : Context → Handler)
    → Keeps P (h c)
    → Keeps P (require_role role c >>= h)
role-Keeps role c P h k = record {
  at = λ w s.
      bind_cases (λ x. P x.1) (require_role role c) h w
        (λ e x. subst P (sym (role-world role c w)) s)
        (λ c' x.
          subst (λ d. P (h d (require_role role c w).1).1) (role-context role c c' w x)
            (k.at (require_role role c w).1 (subst P (sym (role-world role c w)) s)));
}

module _ (p : Platform) (cfg : Config) where
  -- The route of the router.
  abbrev pub route : TenantCall → Request → Handler
  route list_projects r = Router.list_projects p cfg r
  route (create_project body) r = Router.create_project p cfg r body
  route (get_project id) r = Router.get_project p cfg r id
  route (update_project id body) r = Router.update_project p cfg r id body
  route (delete_project id) r = Router.delete_project p cfg r id
  route (list_audit q) r = Router.list_audit p cfg r q
  route (create_api_key body) r = Router.create_api_key p cfg r body
  route list_api_keys r = Router.list_api_keys p cfg r
  route (revoke_api_key id) r = Router.revoke_api_key p cfg r id
  route (create_checkout body) r = Router.create_checkout p cfg r body
  route get_subscription r = Router.get_subscription p cfg r
  route get_usage r = Router.get_usage p cfg r
  route (create_endpoint body) r = Router.create_endpoint p cfg r body
  route list_endpoints r = Router.list_endpoints p cfg r
  route (update_endpoint id body) r = Router.update_endpoint p cfg r id body
  route (test_endpoint id) r = Router.test_endpoint p cfg r id
  route (presign_put body) r = Router.presign_put p cfg r body
  route (presign_get body) r = Router.presign_get p cfg r body
  route (list_files limit offset) r = Router.list_files p cfg r limit offset
  route (create_file body) r = Router.create_file p cfg r body
  route (get_file id) r = Router.get_file p cfg r id
  route (delete_file id) r = Router.delete_file p cfg r id

  -- What it does behind authentication and tenant.
  abbrev pub handle : TenantCall → Context → Handler
  handle list_projects c = require_role "member" c >>= λ c. Projects.list c
  handle (create_project body) c = require_role "member" c >>= λ c. Projects.create p c body
  handle (get_project id) c = require_role "member" c >>= λ c. Projects.get c (("id", id) ∷ [])
  handle (update_project id body) c =
      require_role "member" c >>= λ c. Projects.update c (("id", id) ∷ []) body
  handle (delete_project id) c =
      require_role "member" c >>= λ c. Projects.delete c (("id", id) ∷ [])
  handle (list_audit q) c = require_role "admin" c >>= λ c. Audit.list p c q
  handle (create_api_key body) c = ApiKeys.create p c body
  handle list_api_keys c = ApiKeys.list c
  handle (revoke_api_key id) c = ApiKeys.revoke c (("id", id) ∷ [])
  handle (create_checkout body) c = Billing.create_checkout p c body
  handle get_subscription c = Billing.subscription c
  handle get_usage c = Billing.usage c
  handle (create_endpoint body) c = Webhooks.create_endpoint p c body
  handle list_endpoints c = Webhooks.list_endpoints c
  handle (update_endpoint id body) c = Webhooks.update_endpoint c (("id", id) ∷ []) body
  handle (test_endpoint id) c = Webhooks.test p c id
  handle (presign_put body) c = require_role "member" c >>= λ c. Storage.presign_put p cfg body
  handle (presign_get body) c = require_role "member" c >>= λ c. Storage.presign_get p cfg body
  handle (list_files limit offset) c =
      require_role "member" c >>= λ c. Storage.list_files c limit offset
  handle (create_file body) c = require_role "member" c >>= λ c. Storage.create_file p cfg c body
  handle (get_file id) c = require_role "member" c >>= λ c. Storage.get_file c (("id", id) ∷ [])
  handle (delete_file id) c =
      require_role "member" c >>= λ c. Storage.delete_file cfg c (("id", id) ∷ [])

  -- Each route is behind both.
  pub route-protected :
      (call : TenantCall) (r : Request) → route call r ≡ Router.protected p cfg r (handle call)
  unfolding Router.list_projects Router.create_project Router.get_project Router.update_project
      Router.delete_project Router.list_audit Router.create_api_key Router.list_api_keys
      Router.revoke_api_key Router.create_checkout Router.get_subscription Router.get_usage
      Router.create_endpoint Router.list_endpoints Router.update_endpoint Router.test_endpoint
      Router.presign_put Router.presign_get Router.list_files Router.create_file Router.get_file
      Router.delete_file
  route-protected list_projects r = refl
  route-protected (create_project body) r = refl
  route-protected (get_project id) r = refl
  route-protected (update_project id body) r = refl
  route-protected (delete_project id) r = refl
  route-protected (list_audit q) r = refl
  route-protected (create_api_key body) r = refl
  route-protected list_api_keys r = refl
  route-protected (revoke_api_key id) r = refl
  route-protected (create_checkout body) r = refl
  route-protected get_subscription r = refl
  route-protected get_usage r = refl
  route-protected (create_endpoint body) r = refl
  route-protected list_endpoints r = refl
  route-protected (update_endpoint id body) r = refl
  route-protected (test_endpoint id) r = refl
  route-protected (presign_put body) r = refl
  route-protected (presign_get body) r = refl
  route-protected (list_files limit offset) r = refl
  route-protected (create_file body) r = refl
  route-protected (get_file id) r = refl
  route-protected (delete_file id) r = refl

  pub handle-Keeps :
      (call : TenantCall) (c : Context) (v : Outside)
      → Keeps (Kept (or_empty (org_id c)) v) (handle call c)
  handle-Keeps list_projects c v = role-Keeps "member" c _ _ (Files.projects-list p cfg c v)
  handle-Keeps (create_project body) c v =
      role-Keeps "member" c _ _ (Handlers.projects-create p c v body)
  handle-Keeps (get_project id) c v =
      role-Keeps "member" c _ _ (Files.projects-get p cfg c v (("id", id) ∷ []))
  handle-Keeps (update_project id body) c v =
      role-Keeps "member" c _ _ (Handlers.projects-update p c v (("id", id) ∷ []) body)
  handle-Keeps (delete_project id) c v =
      role-Keeps "member" c _ _ (Handlers.projects-delete p c v (("id", id) ∷ []))
  handle-Keeps (list_audit q) c v = role-Keeps "admin" c _ _ (Files.audit-list p cfg c v q)
  handle-Keeps (create_api_key body) c v = Handlers.api_keys-create p c v body
  handle-Keeps list_api_keys c v = Files.api_keys-list p cfg c v
  handle-Keeps (revoke_api_key id) c v = Handlers.api_keys-revoke p c v (("id", id) ∷ [])
  handle-Keeps (create_checkout body) c v = Handlers.billing-checkout p c v body
  handle-Keeps get_subscription c v = Files.billing-subscription p cfg c v
  handle-Keeps get_usage c v = Files.billing-usage p cfg c v
  handle-Keeps (create_endpoint body) c v = Handlers.webhooks-create p c v body
  handle-Keeps list_endpoints c v = Files.webhooks-list p cfg c v
  handle-Keeps (update_endpoint id body) c v = Handlers.webhooks-update p c v (("id", id) ∷ []) body
  handle-Keeps (test_endpoint id) c v = Handlers.webhooks-test p c v id
  handle-Keeps (presign_put body) c v =
      role-Keeps "member" c _ _ (Files.storage-presign_put p cfg c v body)
  handle-Keeps (presign_get body) c v =
      role-Keeps "member" c _ _ (Files.storage-presign_get p cfg c v body)
  handle-Keeps (list_files limit offset) c v =
      role-Keeps "member" c _ _ (Files.storage-list p cfg c v limit offset)
  handle-Keeps (create_file body) c v =
      role-Keeps "member" c _ _ (Files.storage-create p cfg c v body)
  handle-Keeps (get_file id) c v =
      role-Keeps "member" c _ _ (Files.storage-get p cfg c v (("id", id) ∷ []))
  handle-Keeps (delete_file id) c v =
      role-Keeps "member" c _ _ (Files.storage-delete p cfg c v (("id", id) ∷ []))
