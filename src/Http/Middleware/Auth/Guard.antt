-- ===== src/Http/Middleware/Auth/Guard.antt =====
-- What the authentication leaves alone, and how it refuses.
use vergo.Prelude.{String, Bool, true, ◌≡◌, ◌≤◌, arith, some, inl, inr, Option-cases}
use vergo.Table.{find}
use vergo.Repo.Keys.{live_hash}
use vergo.Db.Rows.{ApiKey}
use vergo.Platform.{Platform}
use vergo.Config.{Config}
use vergo.Db.{World, ok, err}
use vergo.Http.Gin.{Request, Context, Response}
use vergo.Http.Middleware.Auth.{bearer_token, is_api_key, auth_with_api_keys}

module _ (p : Platform) (cfg : Config) (keys : Bool) (r : Request) (c : Context) (w : World) where
  pub memberships-auth : (auth_with_api_keys p cfg keys r c w).1.memberships ≡ w.memberships
  unfolding auth_with_api_keys
  memberships-auth = ground arith

  pub auth-err : (e : Response) → (auth_with_api_keys p cfg keys r c w).0 ≡ err e → 400 ≤ e.status
  unfolding auth_with_api_keys
  auth-err e h = ground arith

module _ (p : Platform) (cfg : Config) (r : Request) (c : Context) (w : World) where
  -- With a key service, a bearer token that begins with sk_ makes the user of the request the
  -- identifier of an API key.
  pub auth-key_id :
      (token : String) (c' : Context)
      → bearer_token r.authorization w ≡ (ok token, w)
      → is_api_key token ≡ true
      → (auth_with_api_keys p cfg true r c w).0 ≡ ok c'
      → (k : ApiKey) × (find (live_hash (p.sha256_hex token)) w.api_keys ≡ some k)
        × (c'.user_id ≡ some k.id)
  unfolding auth_with_api_keys
  auth-key_id token c' b k h =
      elim (Option-cases (find (live_hash (p.sha256_hex token)) w.api_keys)) [
        | inl e ↦ absurd (ground arith)
        | inr (row, e) ↦ (row, e, ground arith)
      ]
