-- ===== src/Http/Handlers/Orgs/Members.antt =====
-- The member handlers, whatever the driver does.
use vergo.Prelude.{String, ◌≡◌, ◌≤◌, true, ◌∷◌, Option, some, none, [], arith}
use vergo.Table.{find}
use vergo.Table.Laws.{delete-none, update-none, count_zero}
use vergo.Db.{World}
use vergo.Db.Rows.{Membership}
use vergo.Repo.Orgs.{is_membership, is_org, is_user}
use vergo.Repo.Orgs.Laws.{find-upsert_member}
use vergo.Http.Gin.{Context, Params, Body, param, reply, serve}
use vergo.Http.Handlers.Orgs.{MemberIn, RoleIn, add_member, update_member, remove_member}

module _ (c : Context) (ps : Params) (w : World) where
  pub remove_member-absent :
      find (is_membership (param "id" ps) (param "userID" ps)) w.memberships ≡ none
      → (remove_member c ps w).1.memberships ≡ w.memberships
  unfolding remove_member
  remove_member-absent h =
      ground
        (arith, delete-none (is_membership (param "id" ps) (param "userID" ps)) w.memberships h)

  pub update_member-absent :
      (body : Option RoleIn)
      → find (is_membership (param "id" ps) (param "userID" ps)) w.memberships ≡ none
      → ((update_member c ps body w).1.memberships ≡ w.memberships)
        × (400 ≤ (serve (update_member c ps body) w).0.status)
  unfolding update_member
  update_member-absent none h = ground arith
  update_member-absent (some input) h = ground (
    arith,
    count_zero (is_membership (param "id" ps) (param "userID" ps)) w.memberships h,
    update-none (is_membership (param "id" ps) (param "userID" ps))
        (λ m. record m { role = input.role }) w.memberships h,
  )

-- With the statements answered, an invitation into an organization and of a user that exist is
-- answered by 204, and the user has the role in the organization of the path.
pub add_member-grants :
    (c : Context) (id : String) (input : MemberIn) (w : World)
    → w.faults ≡ []
    → is_org w.db id ≡ true
    → is_user w.db input.user_id ≡ true
    → let res = serve (add_member c (("id", id) ∷ []) (some input)) w in
      (res.0 ≡ reply 204 Body.empty)
      × (m : Membership) × (find (is_membership id input.user_id) res.1.memberships ≡ some m)
      × (m.role ≡ input.role)
unfolding add_member param
add_member-grants c id input w f o u =
    let (done, left, _, m, found, e) = find-upsert_member id input.user_id input.role w f o u in
    (ground arith, m, ground arith, e)
