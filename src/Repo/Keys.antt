-- ===== src/Repo/Keys.antt =====
-- internal/repo/api_keys.sql.go
use vergo.Prelude.{
  ℕ, String, ◌==◌, ◌&&◌, ◌++◌, ◌∷◌, [], List, Bool, Option, none, some, not, leb, is_some,
  if◌then◌else◌,
}
use vergo.Table.{find, select, update, order_by}
use vergo.Platform.{Platform}
use vergo.Db.{Act, Err, ok, err, query, one, draw, ◌>>=◌}
use vergo.Db.Rows.{ApiKey}
use vergo.Repo.Orgs.{is_user, is_org}

module _ (p : Platform) where
  unfoldable pub create_api_key :
      String → String → String → String → String → Option ℕ → Act Err ApiKey
  unfolding query
  create_api_key org_id name key_prefix key_hash created_by expires_at = draw >>= λ n. query λ w.
      let row : ApiKey = record {
        id = p.uuid n;
        org_id = org_id;
        name = name;
        key_prefix = key_prefix;
        key_hash = key_hash;
        created_by = created_by;
        created_at = w.now;
        expires_at = expires_at;
        last_used_at = none;
        revoked_at = none;
      } in
      if is_some (find (λ k. k.id == p.uuid n) w.api_keys)
      then err Err.unique_violation
      else if is_some (find (λ k. k.key_hash == key_hash) w.api_keys)
      then err Err.unique_violation
      else if is_org w.db org_id && is_user w.db created_by
      then ok (row, record w.db { api_keys = w.api_keys ++ row ∷ [] })
      else err Err.fk_violation

abbrev pub live_key_of_org : String → ApiKey → Bool
live_key_of_org org_id k = k.org_id == org_id && not (is_some k.revoked_at)

unfoldable pub list_api_keys_by_org : String → Act Err (List ApiKey)
unfolding query
list_api_keys_by_org org_id = query λ w. ok (
  order_by (λ j k. leb k.created_at j.created_at) (select (live_key_of_org org_id) w.api_keys),
  w.db,
)

abbrev pub live_key : String → String → ApiKey → Bool
live_key org_id id k = k.id == id && live_key_of_org org_id k

unfoldable pub revoke_api_key : String → String → Act Err (Unit {0})
unfolding query
revoke_api_key org_id id = query λ w. ok (
  tt,
  record w.db {
    api_keys = update (live_key org_id id) (λ k. record k { revoked_at = some w.now }) w.api_keys;
  },
)

abbrev pub live_hash : String → ApiKey → Bool
live_hash key_hash k = k.key_hash == key_hash && not (is_some k.revoked_at)

unfoldable pub get_api_key_by_hash : String → Act Err ApiKey
unfolding query
get_api_key_by_hash key_hash = query λ w. one w (find (live_hash key_hash) w.api_keys)

unfoldable pub touch_api_key_last_used : String → Act Err (Unit {0})
unfolding query
touch_api_key_last_used id = query λ w. ok (
  tt,
  record w.db {
    api_keys = update (λ k. k.id == id) (λ k. record k { last_used_at = some w.now }) w.api_keys;
  },
)
