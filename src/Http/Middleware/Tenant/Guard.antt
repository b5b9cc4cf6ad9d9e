-- ===== src/Http/Middleware/Tenant/Guard.antt =====
-- The tenant middleware admits members only.
use vergo.Prelude.{
  String, ◌==◌, ◌≡◌, refl, subst, ◌≤◌, some, inl, inr, arith, Bool-cases, Option-cases,
  if◌then◌else◌,
}
use vergo.Prelude.Text.{trim_space}
use vergo.Table.{find}
use vergo.Repo.Orgs.{is_membership}
use vergo.Db.{World, Tables, ok, err}
use vergo.Db.Rows.{Membership}
use vergo.Domain.Org.Members.{db-is_member}
use vergo.Http.Gin.{Request, Context, Response, user_id}
use vergo.Http.Middleware.Tenant.{requested_org, check_member, tenant}

pub db-requested_org :
    (r : Request) (uid : String) (w : World) → (requested_org r uid w).1.db ≡ w.db
unfolding requested_org
db-requested_org r uid w = ground arith

check_member-some :
    (uid org_id : String) (c c' : Context) (w : World)
    → (check_member uid org_id c w).0 ≡ ok c'
    → (m : Membership) × (find (is_membership org_id uid) w.memberships ≡ some m)
      × (c'
          ≡ record c { org_id = some org_id; role = if m.role == "" then c.role else some m.role })
unfolding check_member
check_member-some uid org_id c c' w h = ground arith

pub db-check_member :
    (uid org_id : String) (c : Context) (w : World) → (check_member uid org_id c w).1.db ≡ w.db
unfolding check_member
db-check_member uid org_id c w = ground (arith, db-is_member org_id uid w)

requested_org-ok :
    (r : Request) (uid : String) (w : World)
    → (org_id : String) × ((requested_org r uid w).0 ≡ ok org_id)
unfolding requested_org
requested_org-ok r uid w = elim (Bool-cases (trim_space r.x_org_id == "")) [
  | inl e ↦ rw e (_, refl)
  | inr e ↦ rw e (_, refl)
]

-- An admitted request has a user, and passed the check on the organization that it asked for.
tenant-checked :
    (r : Request) (c c' : Context) (w : World)
    → (tenant r c w).0 ≡ ok c'
    → (uid : String) × (org_id : String) × (user_id c ≡ some uid)
      × ((check_member uid org_id c (requested_org r uid w).1).0 ≡ ok c')
unfolding tenant
tenant-checked r c c' w h = elim (Option-cases (user_id c)) [
  | inl e ↦ absurd (ground arith)
  | inr (uid, e) ↦ let (org_id, f) = requested_org-ok r uid w in (uid, org_id, e, ground arith)
]

pub db-tenant : (r : Request) (c : Context) (w : World) → (tenant r c w).1.db ≡ w.db
unfolding tenant user_id requested_org check_member
db-tenant r c w = ground arith

-- Whatever the driver does, a context that leaves the tenant middleware names an organization of
-- which its user is a member in the database; its role is that membership's, unless that is empty.
pub tenant-some :
    (r : Request) (c c' : Context) (w : World)
    → (tenant r c w).0 ≡ ok c'
    → (uid : String) × (org_id : String) × (m : Membership) × (user_id c ≡ some uid)
      × (find (is_membership org_id uid) w.memberships ≡ some m)
      × (c'
          ≡ record c { org_id = some org_id; role = if m.role == "" then c.role else some m.role })
tenant-some r c c' w h =
    let (uid, org_id, u, checked) = tenant-checked r c c' w h in
    let (m, found, e) = check_member-some uid org_id c c' _ checked in
    (
      uid,
      org_id,
      m,
      u,
      subst (λ (t : Tables). find (is_membership org_id uid) t.memberships ≡ some m)
          (db-requested_org r uid w) found,
      e,
    )

pub tenant-err :
    (r : Request) (c : Context) (w : World) (e : Response)
    → (tenant r c w).0 ≡ err e
    → 400 ≤ e.status
unfolding tenant user_id requested_org check_member
tenant-err r c w e h = ground arith
