-- ===== src/Http/Upkeep/Middleware.antt =====
-- The middleware, and what gin's context and body are read with.
use vergo.Prelude.{String, Bool, false, Option, none, some, refl}
use vergo.Platform.{Platform}
use vergo.Config.{Config}
use vergo.Db.{Tables}
use vergo.Db.Upkeep.{Upholds, upkeep, still-Upholds}
use vergo.Repo.Upkeep.{Laws}
use vergo.Domain.Upkeep.{validate-Upholds, parse-Upholds, is_member-Upholds, active_org-Upholds}
use vergo.Http.Gin.{Request, Context, Response, Handler, require, bind, map_reply}
use vergo.Http.Middleware.Auth.{bearer_token, auth_api_key, auth_jwt, auth_with_api_keys, auth}
use vergo.Http.Middleware.Tenant.{requested_org, check_member, tenant}
use vergo.Http.Middleware.Rbac.{require_role}

module _ {P : Tables → Type 0} where
  pub require-Upholds : {A : Type 0} (r : Response) (x : Option A) → Upholds P (require r x)
  require-Upholds r none = still-Upholds _ (λ w. refl)
  require-Upholds r (some a) = still-Upholds _ (λ w. refl)

  pub body-Upholds : {A : Type 0} (x : Option A) → Upholds P (bind x)
  body-Upholds none = still-Upholds _ (λ w. refl)
  body-Upholds (some a) = still-Upholds _ (λ w. refl)

  pub map_reply-Upholds :
      (f : Response → Response) (h : Handler) → Upholds P h → Upholds P (map_reply f h)
  map_reply-Upholds f h k = record { at = k.at }

  bearer_token-Upholds : (h : String) → Upholds P (bearer_token h)
  unfolding bearer_token
  bearer_token-Upholds h = search upkeep depth 20 fits 5000

  auth_jwt-Upholds :
      (p : Platform) (cfg : Config) (token : String) (c : Context)
      → Upholds P (auth_jwt p cfg token c)
  unfolding auth_jwt
  auth_jwt-Upholds p cfg token c = search (upkeep, parse-Upholds) depth 20 fits 5000

  requested_org-Upholds : (r : Request) (uid : String) → Upholds P (requested_org r uid)
  unfolding requested_org
  requested_org-Upholds r uid = search (upkeep, active_org-Upholds) depth 20 fits 5000

  check_member-Upholds : (uid oid : String) (c : Context) → Upholds P (check_member uid oid c)
  unfolding check_member
  check_member-Upholds uid oid c =
      search (upkeep, is_member-Upholds, require-Upholds) depth 20 fits 5000

  pub tenant-Upholds : (r : Request) (c : Context) → Upholds P (tenant r c)
  unfolding tenant
  tenant-Upholds r c =
      search (upkeep, require-Upholds, requested_org-Upholds, check_member-Upholds) depth 20 fits
        5000

  pub require_role-Upholds : (role : String) (c : Context) → Upholds P (require_role role c)
  unfolding require_role
  require_role-Upholds role c = search (upkeep, require-Upholds) depth 20 fits 5000

module _ (p : Platform) (cfg : Config) {P : Tables → Type 0} (laws : Laws p P) where
  auth_api_key-Upholds : (token : String) (c : Context) → Upholds P (auth_api_key p cfg token c)
  unfolding auth_api_key
  auth_api_key-Upholds token c =
      search (upkeep, validate-Upholds p laws, require-Upholds) depth 20 fits 5000

  pub auth_with_api_keys-Upholds :
      (keys : Bool) (r : Request) (c : Context) → Upholds P (auth_with_api_keys p cfg keys r c)
  unfolding auth_with_api_keys
  auth_with_api_keys-Upholds keys r c =
      search (upkeep, bearer_token-Upholds, auth_api_key-Upholds, auth_jwt-Upholds) depth 20 fits
        5000

  pub auth-Upholds : (r : Request) (c : Context) → Upholds P (auth p cfg r c)
  unfolding auth
  auth-Upholds r c = auth_with_api_keys-Upholds false r c

pub ruleset gin = (upkeep, require-Upholds, body-Upholds, map_reply-Upholds)
