-- ===== src/Tests/Access.antt =====
-- Requests to the organization routes on the sample world.
use vergo.Prelude.{
  String, ◌==◌, ◌&&◌, not, ◌≡◌, ◌↔◌, ◌≤◌, refl, true, false, none, some, arith, is_some,
  if◌then◌else◌,
}
use vergo.Prelude.Text.{has_lower_prefix, has_prefix, skip, trim_space}
use vergo.Table.{find}
use vergo.Db.{Err, ok}
use vergo.Db.Rows
use vergo.Repo.Orgs.{is_membership}
use vergo.Domain.ApiKey.{LookupResult, validate}
use vergo.Domain.ApiKey.Lifecycle.{IsUnexpired, validate_iff}
use vergo.Domain.Org.{Organization}
use vergo.Domain.Org
use vergo.Domain.Org.Creation.{create-err, create-is_member}
use vergo.Http.Gin.{Context, serve, reply, Body, user_id, no_keys}
use vergo.Http.Middleware.Auth.{bearer_token, is_api_key}
use vergo.Http.Middleware.Tenant.{tenant}
use vergo.Http.Middleware.Tenant.Guard.{tenant-some}
use vergo.Http.Middleware.Rbac.{require_role}
use vergo.Http.Middleware.Rbac.Order.{is_let_in, require_role_iff}
use vergo.Http.Handlers.Orgs.{MemberIn}
use vergo.Http.Router
use vergo.Http.Router.Members.{
  remove_member_removes_none, update_member_updates_none, add_member_to_any_org,
}
use vergo.Http.Router.KeyAccess.{IsRefused, api_key-IsRefused}
use vergo.Tests.Sample.{machine, platform, config, world, request, bearer}

abbrev k1 : Rows.ApiKey
k1 = record {
  id = "k1";
  org_id = "acme";
  name = "ci";
  key_prefix = "sk_";
  key_hash = "hsk_1";
  created_by = "ana";
  created_at = 0;
  expires_at = none;
  last_used_at = none;
  revoked_at = none;
}

api_key-IsRefused_example :
    IsRefused
      (Router.protected platform config
        (bearer "sk_1")
        (λ c w. (ok (reply 200 Body.empty), w))
        world).0
unfolding bearer_token is_api_key find has_prefix has_lower_prefix skip trim_space
api_key-IsRefused_example =
    api_key-IsRefused platform config (bearer "sk_1") (λ c w. (ok (reply 200 Body.empty), w)) world
      "sk_1" refl refl (record { at = λ org_id. ground arith }, tt)

abbrev acme_key : LookupResult
acme_key = record { key_id = "k1"; org_id = "acme" }

validate_iff_example : ((validate platform "sk_1" world).0 ≡ ok (some acme_key)) ↔ (
    (row : Rows.ApiKey) × (find
        (λ k. k.key_hash == "hsk_1" && not (is_some k.revoked_at))
        world.api_keys
      ≡ some row)
    × IsUnexpired row.expires_at 100
    × (acme_key ≡ record { key_id = row.id; org_id = row.org_id }))
validate_iff_example = validate_iff platform world refl "sk_1" acme_key

abbrev as_ana : Context
as_ana = record no_keys { user_id = some "ana" }

abbrev ana_at_acme : Context
ana_at_acme = record {
  user_id = some "ana";
  org_id = some "acme";
  role = some "admin";
  api_key_auth = false;
}

tenant-some_example :
    (uid : String) × (org_id : String) × (m : Rows.Membership) × (user_id as_ana ≡ some uid)
    × (find (is_membership org_id uid) world.memberships ≡ some m)
    × (ana_at_acme
        ≡ record as_ana { org_id = some org_id; role = if m.role == "" then none else some m.role })
unfolding tenant machine
tenant-some_example = tenant-some request as_ana ana_at_acme world refl

require_role_iff_example : ((require_role "admin" ana_at_acme world).0 ≡ ok ana_at_acme) ↔ (
    (ana_at_acme ≡ ana_at_acme)
    × (role : String) × (ana_at_acme.role ≡ some role)
    × (is_let_in "admin" role ≡ true))
require_role_iff_example = require_role_iff "admin" ana_at_acme world ana_at_acme

remove_member_example :
    (serve (Router.remove_member platform config request "acme" "ana") world).1.memberships
    ≡ world.memberships
unfolding find
remove_member_example = remove_member_removes_none platform config request "acme" "ana" world refl

update_member_example :
    ((serve
        (Router.update_member platform config request "acme" "ana"
          (some (record { role = "owner" })))
        world).1.memberships
      ≡ world.memberships)
    × (400
        ≤ (serve
            (Router.update_member platform config request "acme" "ana"
              (some (record { role = "owner" })))
            world).0.status)
unfolding find
update_member_example =
    update_member_updates_none platform config request "acme" "ana"
      (some (record { role = "owner" })) world refl

abbrev ana_owner : MemberIn
ana_owner = record { user_id = "ana"; role = "owner" }

-- Ana, an admin of acme, makes herself an owner of bolt.
add_member_example :
    let res = serve (Router.add_member platform config request "bolt" (some ana_owner)) world in
    (res.0 ≡ reply 204 Body.empty)
    × (m : Rows.Membership) × (find (is_membership "bolt" "ana") res.1.memberships ≡ some m)
    × (m.role ≡ "owner")
unfolding machine tenant
add_member_example =
    add_member_to_any_org platform config request "bolt" ana_owner world as_ana ana_at_acme "admin"
      refl refl refl (omega arith) refl refl refl

create-err_example : (Org.create platform "X" "nobody" world).1.db ≡ world.db
unfolding Org.create find
create-err_example = create-err platform "X" "nobody" world Err.fk_violation refl

create-is_member_example :
    (is_some (find (λ x. x.id == "id0") (Org.create platform "X" "ana" world).1.organizations)
      ≡ true)
    × ((Org.is_member "id0" "ana" (Org.create platform "X" "ana" world).1).0 ≡ ok (some "owner"))
unfolding Org.create find
create-is_member_example =
    create-is_member platform "X" "ana" world
      (record { id = "id0"; name = "X"; owner_user = "ana"; created_at = 100 }) refl refl
