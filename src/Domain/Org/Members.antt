-- ===== src/Domain/Org/Members.antt =====
-- What `is_member` answers, whatever the driver does.
use vergo.Prelude.{String, ◌≡◌, some, none, [], arith}
use vergo.Table.{find}
use vergo.Repo.Orgs.{is_membership}
use vergo.Db.{World, ok}
use vergo.Db.Rows.{Membership}
use vergo.Domain.Org.{is_member}

module _ (org_id user_id : String) (w : World) where
  pub db-is_member : (is_member org_id user_id w).1.db ≡ w.db
  unfolding is_member
  db-is_member = ground arith

  pub is_member-some :
      (role : String)
      → (is_member org_id user_id w).0 ≡ ok (some role)
      → (m : Membership) × (find (is_membership org_id user_id) w.memberships ≡ some m)
        × (m.role ≡ role)
  unfolding is_member
  is_member-some role h = ground arith

  pub is_member_of_find :
      (m : Membership)
      → find (is_membership org_id user_id) w.memberships ≡ some m
      → w.faults ≡ []
      → is_member org_id user_id w ≡ (ok (some m.role), w)
  unfolding is_member
  is_member_of_find m h f = ground arith

  pub is_member_of_none :
      find (is_membership org_id user_id) w.memberships ≡ none
      → w.faults ≡ []
      → is_member org_id user_id w ≡ (ok none, w)
  unfolding is_member
  is_member_of_none h f = ground arith
