-- ===== src/Repo/Orgs.antt =====
-- internal/repo/orgs.sql.go, memberships.sql.go and user_contexts.sql.go, with the foreign keys and
-- the ON DELETE CASCADE of db/migrations. The migrations of the later tables name the table of
-- organizations `orgs`; the model takes `organizations` to be meant.
pub mod Laws
use vergo.Prelude.{ℕ, String, ◌==◌, ◌&&◌, ◌++◌, ◌∷◌, [], Bool, is_some, if◌then◌else◌}
use vergo.Table.{find, update, delete, count}
use vergo.Db.{Act, Err, Tables, ok, err, query, one}
use vergo.Db.Rows.{Organization, Membership, WebhookEndpoint, WebhookDelivery}

abbrev pub is_user : Tables → String → Bool
is_user t id = is_some (find (λ u. u.id == id) t.users)

abbrev pub is_org : Tables → String → Bool
is_org t id = is_some (find (λ o. o.id == id) t.organizations)

-- The primary key (org_id, user_id) of memberships.
abbrev pub is_membership : String → String → Membership → Bool
is_membership org_id user_id m = m.org_id == org_id && m.user_id == user_id

unfoldable pub insert_org : String → String → String → ℕ → Act Err (Unit {0})
unfolding query
insert_org id name owner_user_id created_at = query λ w.
    if is_org w.db id
    then err Err.unique_violation
    else if is_user w.db owner_user_id
    then ok (
      tt,
      record w.db {
        organizations =
            w.organizations
            ++ record {
              id = id;
              name = name;
              owner_user_id = owner_user_id;
              created_at = created_at;
            }
              ∷ [];
      },
    )
    else err Err.fk_violation

unfoldable pub get_org : String → Act Err Organization
unfolding query
get_org id = query λ w. one w (find (λ o. o.id == id) w.organizations)

-- A delivery of an endpoint of this organization.
abbrev pub delivery_of_org : Tables → String → WebhookDelivery → Bool
delivery_of_org t id d =
    is_some (find (λ e. e.id == d.endpoint_id && e.org_id == id) t.webhook_endpoints)

unfoldable pub delete_org : String → Act Err (Unit {0})
unfolding query
delete_org id = query λ w. ok (
  tt,
  record w.db {
    organizations = delete (λ o. o.id == id) w.organizations;
    memberships = delete (λ m. m.org_id == id) w.memberships;
    user_contexts = delete (λ c. c.org_id == id) w.user_contexts;
    files = delete (λ f. f.org_id == id) w.files;
    api_keys = delete (λ k. k.org_id == id) w.api_keys;
    webhook_endpoints = delete (λ e. e.org_id == id) w.webhook_endpoints;
    webhook_deliveries = delete (delivery_of_org w.db id) w.webhook_deliveries;
    subscriptions = delete (λ s. s.org_id == id) w.subscriptions;
  },
)

-- INSERT ... ON CONFLICT (org_id, user_id) DO UPDATE
unfoldable pub upsert_member : String → String → String → Act Err (Unit {0})
unfolding query
upsert_member org_id user_id role = query λ w.
    if is_some (find (is_membership org_id user_id) w.memberships)
    then ok (
      tt,
      record w.db {
        memberships =
            update (is_membership org_id user_id) (λ m. record m { role = role }) w.memberships;
      },
    )
    else if is_org w.db org_id && is_user w.db user_id
    then ok (
      tt,
      record w.db {
        memberships =
            w.memberships ++ record { org_id = org_id; user_id = user_id; role = role } ∷ [];
      },
    )
    else err Err.fk_violation

-- The result is the number of rows affected.
unfoldable pub update_member_role : String → String → String → Act Err ℕ
unfolding query
update_member_role org_id user_id role = query λ w. ok (
  count (is_membership org_id user_id) w.memberships,
  record w.db {
    memberships =
        update (is_membership org_id user_id) (λ m. record m { role = role }) w.memberships;
  },
)

unfoldable pub delete_member : String → String → Act Err (Unit {0})
unfolding query
delete_member org_id user_id =
    query λ w.
      ok (tt, record w.db { memberships = delete (is_membership org_id user_id) w.memberships })

unfoldable pub get_member_role : String → String → Act Err Membership
unfolding query
get_member_role org_id user_id =
    query λ w. one w (find (is_membership org_id user_id) w.memberships)
