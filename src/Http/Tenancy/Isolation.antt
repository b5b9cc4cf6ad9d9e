-- ===== src/Http/Tenancy/Isolation.antt =====
-- A member of one organization, at the routes that act on the organization of the request.
use vergo.Prelude.{
  String, ◌==◌, ◌≡◌, refl, ap, ◌∙◌, subst, true, false, List, arith, inl, inr, eq_iff, none, some,
  if◌then◌else◌, Bool-cases,
}
use vergo.Table.{find}
use vergo.Platform.{Platform}
use vergo.Config.{Config}
use vergo.Db.Rows.{Membership}
use vergo.Http.Gin
use vergo.Db.{continue, World, Res, ok, ◌>>=◌}
use vergo.Repo.Orgs.{is_membership}
use vergo.Http.Gin.{Request, Context, Handler, Response, Params, serve, user_id, org_id, or_empty}
use vergo.Http.Middleware.Tenant.{tenant}
use vergo.Http.Middleware.Tenant.Guard.{tenant-some, db-tenant}
use vergo.Db.Cases.{bind_cases}
use vergo.Http.Middleware.Auth.{auth_with_api_keys}
use vergo.Http.Gin.{no_keys}
use vergo.Http.Router
use vergo.Http.Tenancy.{outside}
use vergo.Http.Tenancy.Within.{within, within_kept}
use vergo.Http.Tenancy.Routes.{TenantCall, route, handle, route-protected, handle-Keeps}

module _ (p : Platform) (cfg : Config) where
  protected-tenant :
      (r : Request) (c : Context) (h : Context → Handler) (w : World)
      → auth_with_api_keys p cfg true r no_keys w ≡ (ok c, w)
      → Router.protected p cfg r h w ≡ (tenant r c >>= h) w
  unfolding Router.protected
  protected-tenant r c h w a = ap (λ x. continue x.0 (λ d. tenant r d >>= h) x.1) a

  tenant_org :
      (d : Context) (id : String) (m : Membership) (c : Context)
      → d ≡ record c { org_id = some id; role = if m.role == "" then c.role else some m.role }
      → or_empty (org_id d) ≡ id
  unfolding org_id
  tenant_org d id m c h = ground (arith, h, eq_iff id "")

  -- A member's organization is not the one without the member.
  other_org :
      (ms : List Membership) (other org_id uid uid' : String) (m : Membership)
      → find (is_membership other uid) ms ≡ none
      → find (is_membership org_id uid') ms ≡ some m
      → uid' ≡ uid
      → (other == org_id) ≡ false
  other_org ms other org_id uid uid' m h k e = elim (Bool-cases (other == org_id)) [
    | inl y ↦ absurd (ground (arith, h, k, e, y, eq_iff other org_id))
    | inr n ↦ n
  ]

  -- Tenants are isolated: whatever a caller asks for at the routes of projects, API keys, webhooks,
  -- billing, files and the audit log, and whatever the driver does, the rows of an organization of
  -- which the caller is no member stay as they are: its projects, files, API keys, webhook endpoints,
  -- subscription, memberships, audit events and its own row. `c` is what the authentication made of
  -- the request, which changed nothing, as for a JWT.
  pub isolation :
      (call : TenantCall) (r : Request) (c : Context) (uid other : String) (w : World)
      → auth_with_api_keys p cfg true r no_keys w ≡ (ok c, w)
      → user_id c ≡ some uid
      → find (is_membership other uid) w.memberships ≡ none
      → within other (serve (route p cfg call r) w).1.db ≡ within other w.db
  isolation call r c uid other w a u absent =
      ap (λ (x : Res Response Response × World). within other x.1.db)
        (ap (λ (h : Handler). h w) (route-protected p cfg call r)
          ∙ protected-tenant r c (handle p cfg call) w a)
      ∙ bind_cases (λ x. within other x.1.db ≡ within other w.db) (tenant r c) (handle p cfg call) w
          (λ e x. ap (within other) (db-tenant r c w))
          (λ d x.
            let v = (tenant r c w).1 in
            let (uid', org_id, m, u', member, same) = tenant-some r c d w x in
            let apart =
              other_org w.memberships other org_id uid uid' m absent member
                (ground (arith, u, u')) in
            let kept =
              (handle-Keeps p cfg call d (outside (or_empty (Gin.org_id d)) v.db)).at v refl in
            within_kept other org_id apart (handle p cfg call d v).1.db v.db (
              subst (λ i. outside i (handle p cfg call d v).1.db ≡ outside i v.db)
                (tenant_org d org_id m c same) kept)
            ∙ ap (within other) (db-tenant r c w))
