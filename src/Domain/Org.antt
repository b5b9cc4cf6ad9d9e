-- ===== src/Domain/Org.antt =====
-- internal/domain/org/service_pg.go and model.go
pub mod Members
pub mod Creation
use vergo.Prelude.{ℕ, String, eqb, Option, none, some, if◌then◌else◌}
use vergo.Platform.{Platform}
use vergo.Db.{Act, Err, Res, ok, err, pure, raise, gets, draw, or_fail, transact, ◌>>=◌, ◌>>◌}
use vergo.Db.Rows.{Membership}
use vergo.Db.Rows
use vergo.Repo.Orgs.{
  insert_org, get_org, delete_org, upsert_member, update_member_role, delete_member,
  get_member_role,
}

pub record Organization : Type 0 where
  pub id : String
  pub name : String
  pub owner_user : String
  pub created_at : ℕ

abbrev not_found : Err → Err
not_found Err.no_rows = Err.org_not_found
not_found e = e

module _ (p : Platform) where
  -- The organization and its owner's membership, in one transaction.
  unfoldable pub create : String → String → Act Err Organization
  unfolding transact insert_org upsert_member
  create name owner_user_id = do
    n ← draw
    now ← gets (λ w. w.now)
    transact (do
      insert_org (p.uuid n) name owner_user_id now
      upsert_member (p.uuid n) owner_user_id "owner")
    pure (record { id = p.uuid n; name = name; owner_user = owner_user_id; created_at = now })

unfoldable pub get : String → Act Err Organization
unfolding get_org
get id = do
  r ← or_fail not_found (get_org id)
  pure
      (record { id = r.id; name = r.name; owner_user = r.owner_user_id; created_at = r.created_at })

unfoldable pub add_member : String → String → String → Act Err (Unit {0})
unfolding upsert_member
add_member org_id user_id role = upsert_member org_id user_id role

unfoldable pub update_member : String → String → String → Act Err (Unit {0})
unfolding update_member_role
update_member org_id user_id role = do
  n ← update_member_role org_id user_id role
  if eqb n 0 then raise Err.no_rows else pure tt

unfoldable pub remove_member : String → String → Act Err (Unit {0})
unfolding delete_member
remove_member org_id user_id = delete_member org_id user_id

-- (ok, role): `none` is (false, "").
member_result : Res Err Membership → Res Err (Option String)
member_result (ok m) = ok (some m.role)
member_result (err Err.no_rows) = ok none
member_result (err e) = err e

unfoldable pub is_member : String → String → Act Err (Option String)
unfolding get_member_role member_result
is_member org_id user_id w = let (r, v) = get_member_role org_id user_id w in (member_result r, v)

unfoldable pub delete : String → Act Err (Unit {0})
unfolding delete_org
delete id = delete_org id
