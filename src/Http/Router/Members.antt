-- ===== src/Http/Router/Members.antt =====
-- Who may manage members: the routes check the role in the organization of the request's context,
-- and the handlers act on the organization of the path.
use vergo.Prelude.{String, ◌≡◌, ◌≤◌, ap, ◌∙◌, Option, some, none, [], true}
use vergo.Table.{find}
use vergo.Platform.{Platform}
use vergo.Config.{Config}
use vergo.Db.{World, Tables, Res, ok, err, ◌>>=◌}
use vergo.Db.Cases.{bind_cases}
use vergo.Db.Rows.{Membership}
use vergo.Repo.Orgs.{is_user, is_org, is_membership}
use vergo.Http.Gin.{
  Request, Context, Response, Body, Handler, reply, serve, no_keys, param, answered,
}
use vergo.Http.Middleware.Auth.{auth_with_api_keys}
use vergo.Http.Middleware.Auth.Guard.{memberships-auth, auth-err}
use vergo.Http.Middleware.Tenant.{tenant}
use vergo.Http.Middleware.Tenant.Guard.{db-tenant, tenant-err}
use vergo.Http.Middleware.Rbac.{require_role, role_order}
use vergo.Http.Middleware.Rbac.Order.{world-require_role, require_role-err, require_role_pass}
use vergo.Http.Handlers.Orgs.{MemberIn, RoleIn}
use vergo.Http.Handlers.Orgs.Members.{remove_member-absent, update_member-absent, add_member-grants}
use vergo.Http.Router.{protected, add_member, update_member, remove_member}

module _ (p : Platform) (cfg : Config) (r : Request) where
  -- The middleware of the protected routes changes no membership, and refuses with an error status.
  pub protected_cases {ℓ} :
      (Q : Res Response Response × World → Type ℓ) (h : Context → Handler) (w : World)
      → ((e : Response) (v : World) → v.memberships ≡ w.memberships → 400 ≤ e.status → Q (err e, v))
      → ((c : Context) (v : World) → v.memberships ≡ w.memberships → Q (h c v))
      → Q (protected p cfg r h w)
  unfolding protected
  protected_cases Q h w refused admitted =
      bind_cases Q (auth_with_api_keys p cfg true r no_keys) (λ c. tenant r c >>= h) w
        (λ e x.
          refused e _ (memberships-auth p cfg true r no_keys w)
            (auth-err p cfg true r no_keys w e x))
        (λ c _.
          let v = (auth_with_api_keys p cfg true r no_keys w).1 in
          let same : (tenant r c v).1.memberships ≡ w.memberships =
            ap (λ (t : Tables). t.memberships) (db-tenant r c v)
            ∙ memberships-auth p cfg true r no_keys w in
          bind_cases Q (tenant r c) h v (λ e x. refused e _ same (tenant-err r c v e x))
            (λ c' _. admitted c' _ same))

  pub guarded_cases {ℓ} :
      (Q : Res Response Response × World → Type ℓ) (min_role : String) (h : Context → Handler)
      (w : World)
      → ((e : Response) (v : World) → v.memberships ≡ w.memberships → 400 ≤ e.status → Q (err e, v))
      → ((c : Context) (v : World) → v.memberships ≡ w.memberships → Q (h c v))
      → Q (protected p cfg r (λ c. require_role min_role c >>= h) w)
  guarded_cases Q min_role h w refused admitted = protected_cases Q _ w refused (λ c v same.
      let kept : (require_role min_role c v).1.memberships ≡ w.memberships =
        ap (λ (x : World). x.memberships) (world-require_role min_role c v) ∙ same in
      bind_cases Q (require_role min_role c) h v
        (λ e x. refused e _ kept (require_role-err min_role c v e x)) (λ c' _. admitted c' _ kept))

  -- DELETE /orgs/:id/members/:userId never removes the membership of a user that has an id: whatever
  -- the request, the organization, the user and the driver, the memberships stay as they were, if
  -- the organization of the path has no member with the empty id.
  pub remove_member_removes_none :
      (id uid : String) (w : World)
      → find (is_membership id "") w.memberships ≡ none
      → (serve (remove_member p cfg r id uid) w).1.memberships ≡ w.memberships
  unfolding remove_member param
  remove_member_removes_none id uid w h =
      guarded_cases (λ x. x.1.memberships ≡ w.memberships) "admin" _ w (λ e v same _. same)
        (λ c v same. remove_member-absent c _ v (rw same h) ∙ same)

  -- PATCH /orgs/:id/members/:userId never changes the role of a user that has an id: whatever the
  -- request, the organization, the user, the role and the driver, the memberships stay as they were
  -- and the answer is an error, if the organization of the path has no member with the empty id.
  pub update_member_updates_none :
      (id uid : String) (body : Option RoleIn) (w : World)
      → find (is_membership id "") w.memberships ≡ none
      → ((serve (update_member p cfg r id uid body) w).1.memberships ≡ w.memberships)
        × (400 ≤ (serve (update_member p cfg r id uid body) w).0.status)
  unfolding update_member param
  update_member_updates_none id uid body w h =
      guarded_cases (λ x. (x.1.memberships ≡ w.memberships) × (400 ≤ (answered x.0).status)) "admin"
        _ w (λ e v same low. (same, low))
        (λ c v same.
          let (kept, low) = update_member-absent c _ v body (rw same h) in (kept ∙ same, low))

  -- POST /orgs/:id/members asks for the role admin in the organization of the request's context, and
  -- grants the role in that of the path, of which the caller need not be a member: with the
  -- statements answered, for a caller whom the middleware admits as an admin or an owner of any
  -- organization, the answer is 204 and the user has the role in the organization of the path, if
  -- both exist.
  pub add_member_to_any_org :
      (id : String) (input : MemberIn) (w : World) (a c : Context) (role : String)
      → auth_with_api_keys p cfg true r no_keys w ≡ (ok a, w)
      → tenant r a w ≡ (ok c, w)
      → c.role ≡ some role
      → role_order "admin" ≤ role_order role
      → w.faults ≡ []
      → is_org w.db id ≡ true
      → is_user w.db input.user_id ≡ true
      → let res = serve (add_member p cfg r id (some input)) w in
        (res.0 ≡ reply 204 Body.empty)
        × (m : Membership) × (find (is_membership id input.user_id) res.1.memberships ≡ some m)
        × (m.role ≡ input.role)
  unfolding add_member protected
  add_member_to_any_org id input w a c role x y e low f o u =
      rw (x, y, require_role_pass "admin" c w role e low) (add_member-grants c id input w f o u)
