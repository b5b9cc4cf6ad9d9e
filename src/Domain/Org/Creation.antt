-- ===== src/Domain/Org/Creation.antt =====
-- Creating an organization is all or nothing.
use vergo.Prelude.{
  String, ◌==◌, ◌≡◌, refl, true, none, some, inl, inr, [], ◌∷◌, arith, Option-cases, eq_refl,
  is_some, Bool, ap, ◌∙◌, if◌then◌else◌, ◌++◌,
}
use vergo.Table.{find, update}
use vergo.Table.Laws.{find-concat, find-update, find_holds}
use vergo.Db.Rows
use vergo.Repo.Orgs.{is_membership}
use vergo.Repo.Orgs.Laws.{is_membership_self}
use vergo.Platform.{Platform}
use vergo.Db.{World, Err, ok, err}
use vergo.Domain.Org.{Organization, create, is_member}

module _ (p : Platform) (name uid : String) (w : World) where
  -- Whatever the driver does, an error leaves the tables as they were.
  pub create-err : (e : Err) → (create p name uid w).0 ≡ err e → (create p name uid w).1.db ≡ w.db
  unfolding create
  create-err e h = ground arith

  abbrev org_row : Rows.Organization
  org_row = record { id = p.uuid w.drawn; name = name; owner_user_id = uid; created_at = w.now }

  abbrev owner_row : Rows.Membership
  owner_row = record { org_id = p.uuid w.drawn; user_id = uid; role = "owner" }

  abbrev is_owner : Rows.Membership → Bool
  is_owner = is_membership (p.uuid w.drawn) uid

  -- What a creation that succeeds leaves.
  create_tables :
      (o : Organization)
      → w.faults ≡ []
      → (create p name uid w).0 ≡ ok o
      → (o.id ≡ p.uuid w.drawn)
        × (find (λ x. x.id == p.uuid w.drawn) w.organizations ≡ none)
        × ((create p name uid w).1.faults ≡ [])
        × ((create p name uid w).1.organizations ≡ w.organizations ++ org_row ∷ [])
        × ((create p name uid w).1.memberships ≡ (
            if is_some (find is_owner w.memberships)
            then update is_owner (λ m. record m { role = "owner" }) w.memberships
            else w.memberships ++ owner_row ∷ []))
  unfolding create
  create_tables o f h = (ground arith, ground arith, ground arith, ground arith, ground arith)

  -- The owner's row, new or updated, is found with its role.
  owner_found :
      (m : Rows.Membership) × (find is_owner (
          if is_some (find is_owner w.memberships)
          then update is_owner (λ m. record m { role = "owner" }) w.memberships
          else w.memberships ++ owner_row ∷ [])
        ≡ some m)
      × (m.role ≡ "owner")
  owner_found = elim (Option-cases (find is_owner w.memberships)) [
    | inl g ↦ (
      owner_row,
      ground (
        arith,
        g,
        find-concat is_owner w.memberships owner_row g
            (is_membership_self (p.uuid w.drawn) uid "owner"),
      ),
      refl,
    )
    | inr (m, g) ↦ (
      record m { role = "owner" },
      ground (
        arith,
        g,
        find-update is_owner is_owner (λ m. record m { role = "owner" }) w.memberships (λ x. refl),
        find_holds is_owner w.memberships m g,
      ),
      refl,
    )
  ]

  role_read :
      (v : World) (m : Rows.Membership)
      → v.faults ≡ []
      → find is_owner v.memberships ≡ some m
      → (is_member (p.uuid w.drawn) uid v).0 ≡ ok (some m.role)
  unfolding is_member
  role_read v m f e = ground arith

  -- With the statements answered, whoever creates an organization becomes its owner: the
  -- organization is there, and the role that is read for them is "owner".
  pub create-is_member :
      (o : Organization)
      → w.faults ≡ []
      → (create p name uid w).0 ≡ ok o
      → (is_some (find (λ x. x.id == o.id) (create p name uid w).1.organizations) ≡ true)
        × ((is_member o.id uid (create p name uid w).1).0 ≡ ok (some "owner"))
  create-is_member o f h =
      let (same, fresh, answered, orgs, members) = create_tables o f h in
      let (m, found, role) = owner_found in
      (
        rw
            (
              same,
              orgs,
              find-concat (λ x. x.id == p.uuid w.drawn) w.organizations org_row fresh (eq_refl _),
            )
            refl,
        rw
            (
              same,
              role_read (create p name uid w).1 m answered (ap (find is_owner) members ∙ found),
              role,
            )
            refl,
      )
