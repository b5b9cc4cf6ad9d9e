-- ===== src/Http/Middleware/Rbac/Order.antt =====
-- The role check: it changes nothing, and passes the roles that are high enough.
use vergo.Prelude.{
  String, Bool, true, ◌==◌, ◌||◌, if◌then◌else◌, eq_iff, subst, sym, refl, false, not, ltb, ◌≡◌,
  ◌≤◌, ◌↔◌, inl, inr, some, arith, Option-cases,
}
use vergo.Db.{World, ok, err}
use vergo.Http.Gin.{Context, Response}
use vergo.Http.Middleware.Rbac.{role_order, require_role}

-- The roles that are let in, spelled out for each role that is asked for.
abbrev pub is_let_in : String → String → Bool
is_let_in min_role role =
    if min_role == "member"
    then role == "member" || role == "admin" || role == "owner"
    else if min_role == "admin"
    then role == "admin" || role == "owner"
    else if min_role == "owner"
    then role == "owner"
    else true

-- A role has one name.
other_name : (role a b : String) → (a == b) ≡ false → (role == a) ≡ true → (role == b) ≡ false
other_name role a b n e = subst (λ r. (r == b) ≡ false) (sym ((eq_iff role a).0 e)) n

let_in-role_order :
    (min_role role : String)
    → is_let_in min_role role ≡ not (ltb (role_order role) (role_order min_role))
unfolding role_order
let_in-role_order min_role role = ground (
  arith,
  other_name role "member" "admin" refl,
  other_name role "member" "owner" refl,
  other_name role "admin" "owner" refl,
  other_name role "admin" "member" refl,
  other_name role "owner" "member" refl,
  other_name role "owner" "admin" refl,
)

module _ (min_role : String) (c : Context) (w : World) where
  pub world-require_role : (require_role min_role c w).1 ≡ w
  unfolding require_role
  world-require_role = ground arith

  pub require_role-err : (e : Response) → (require_role min_role c w).0 ≡ err e → 400 ≤ e.status
  unfolding require_role
  require_role-err e h = ground arith

  pub require_role_pass :
      (role : String)
      → c.role ≡ some role
      → role_order min_role ≤ role_order role
      → require_role min_role c w ≡ (ok c, w)
  unfolding require_role
  require_role_pass role e h = ground arith

  -- Who passes: a member is let in where "member" is asked for, an admin also where "admin" is, and an
  -- owner where any of the three is; where none of the three is asked for, every role is let in.
  pub require_role_iff :
      (c' : Context)
      → ((require_role min_role c w).0 ≡ ok c')
        ↔ ((c' ≡ c) × (role : String) × (c.role ≡ some role) × (is_let_in min_role role ≡ true))
  unfolding require_role
  require_role_iff c' = (
    λ h. elim (Option-cases c.role) [
      | inl e ↦ absurd (ground arith)
      | inr (role, e) ↦ (ground arith, role, e, ground (arith, let_in-role_order min_role role))
    ],
    λ (e, role, r, low). ground (arith, let_in-role_order min_role role),
  )
