-- ===== src/Domain/ApiKey.antt =====
-- internal/domain/apikey/service.go
pub mod Lifecycle
use vergo.Prelude.{ℕ, String, Option, none, some, List, map, Bool, ltb, holds, if◌then◌else◌}
use vergo.Prelude.Text.{take_chars, append}
use vergo.Platform.{Platform}
use vergo.Db.{Act, Err, Res, World, ok, err, pure, lift, draw, ◌>>=◌}
use vergo.Db.Rows
use vergo.Repo.Keys.{
  create_api_key, list_api_keys_by_org, revoke_api_key, get_api_key_by_hash,
  touch_api_key_last_used,
}
use vergo.Auth.Jwt.{or_error}

pub record ApiKey : Type 0 where
  pub id : String
  pub org_id : String
  pub name : String
  pub key_prefix : String
  pub created_by : String
  pub created_at : ℕ
  pub expires_at : Option ℕ
  pub last_used_at : Option ℕ

pub record CreateResult : Type 0 where
  pub api_key : ApiKey
  pub plaintext_key : String

pub record LookupResult : Type 0 where
  pub key_id : String
  pub org_id : String

abbrev pub of_row : Rows.ApiKey → ApiKey
of_row r = record {
  id = r.id;
  org_id = r.org_id;
  name = r.name;
  key_prefix = r.key_prefix;
  created_by = r.created_by;
  created_at = r.created_at;
  expires_at = r.expires_at;
  last_used_at = r.last_used_at;
}

-- row.ExpiresAt.Valid && row.ExpiresAt.Time.Before(time.Now())
abbrev pub is_expired : Rows.ApiKey → ℕ → Bool
is_expired row now = holds (λ t. ltb t now) row.expires_at

module _ (p : Platform) where
  generate_key : Act Err String
  generate_key = do
    n ← draw
    hex ← lift (or_error Err.rand_error (p.rand_hex n))
    pure (append "sk_" hex)

  -- A created key was not used yet: the query does not return last_used_at.
  unfoldable pub create : String → String → String → Option ℕ → Act Err CreateResult
  unfolding generate_key create_api_key
  create org_id user_id name expires_at = do
    plaintext ← generate_key
    row ←
        create_api_key p org_id name (take_chars 12 plaintext) (p.sha256_hex plaintext) user_id
          expires_at
    pure (record { api_key = of_row row; plaintext_key = plaintext })

  -- The goroutine that touches last_used_at runs at once here, and its error is dropped.
  unfoldable pub found_key : Rows.ApiKey → World → Res Err (Option LookupResult) × World
  unfolding touch_api_key_last_used
  found_key row w = if is_expired row w.now then (ok none, w) else (
    ok (some (record { key_id = row.id; org_id = row.org_id })),
    (touch_api_key_last_used row.id w).1,
  )

  unfoldable pub validated : Res Err Rows.ApiKey → World → Res Err (Option LookupResult) × World
  unfolding found_key
  validated (ok row) w = found_key row w
  validated (err Err.no_rows) w = (ok none, w)
  validated (err e) w = (err e, w)

  unfoldable pub validate : String → Act Err (Option LookupResult)
  unfolding get_api_key_by_hash validated
  validate key w = let (r, v) = get_api_key_by_hash (p.sha256_hex key) w in validated r v

unfoldable pub list : String → Act Err (List ApiKey)
unfolding list_api_keys_by_org
list org_id = do rows ← list_api_keys_by_org org_id; pure (map of_row rows)

unfoldable pub revoke : String → String → Act Err (Unit {0})
unfolding revoke_api_key
revoke org_id key_id = revoke_api_key org_id key_id
