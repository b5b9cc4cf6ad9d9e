-- ===== src/Repo/Orgs/Laws.antt =====
-- What the membership statements do to the role that is read back.
use vergo.Prelude.{String, ◌≡◌, refl, inl, inr, some, [], true, arith, eq_refl, Option-cases}
use vergo.Table.{find}
use vergo.Table.Laws.{find_holds, find-update, find-concat}
use vergo.Db.{World, ok}
use vergo.Db.Rows.{Membership}
use vergo.Repo.Orgs.{is_user, is_org, is_membership, upsert_member}

pub is_membership_self :
    (org_id user_id role : String)
    → is_membership org_id user_id (record { org_id = org_id; user_id = user_id; role = role })
      ≡ true
is_membership_self org_id user_id role = rw (eq_refl org_id, eq_refl user_id)

-- After an upsert into an organization and for a user that exist, the role read back is the new one.
pub find-upsert_member :
    (org_id user_id role : String) (w : World)
    → w.faults ≡ []
    → is_org w.db org_id ≡ true
    → is_user w.db user_id ≡ true
    → ((upsert_member org_id user_id role w).0 ≡ ok tt)
      × ((upsert_member org_id user_id role w).1.faults ≡ [])
      × ((upsert_member org_id user_id role w).1.now ≡ w.now)
      × (m : Membership) × (find
            (is_membership org_id user_id)
            (upsert_member org_id user_id role w).1.memberships
          ≡ some m)
      × (m.role ≡ role)
unfolding upsert_member
find-upsert_member org_id user_id role w f o u =
    elim (Option-cases (find (is_membership org_id user_id) w.memberships)) [
      | inl e ↦ (
        ground arith,
        ground arith,
        ground arith,
        record { org_id = org_id; user_id = user_id; role = role },
        ground (
          arith,
          is_membership_self org_id user_id role,
          find-concat (is_membership org_id user_id) w.memberships
              (record { org_id = org_id; user_id = user_id; role = role }) e,
        ),
        refl,
      )
      | inr (m, e) ↦ (
        ground arith,
        ground arith,
        ground arith,
        record m { role = role },
        ground (
          arith,
          find_holds (is_membership org_id user_id) w.memberships m,
          find-update (is_membership org_id user_id) (is_membership org_id user_id)
              (λ m. record m { role = role }) w.memberships (λ x. refl),
        ),
        refl,
      )
    ]
