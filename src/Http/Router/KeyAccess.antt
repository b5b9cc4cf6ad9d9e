-- ===== src/Http/Router/KeyAccess.antt =====
-- API keys on the routes that are meant for them.
use vergo.Prelude.{String, ◌≡◌, ◌≤◌, sym, subst, true, some, none, arith, All, List}
use vergo.Table.{find}
use vergo.Table.Laws.{All-find}
use vergo.Platform.{Platform}
use vergo.Config.{Config}
use vergo.Db.{World, Res, ok, err, ◌>>=◌}
use vergo.Db.Cases.{bind_cases}
use vergo.Db.Rows.{ApiKey, Membership}
use vergo.Repo.Keys.{live_hash}
use vergo.Repo.Orgs.{is_membership}
use vergo.Http.Gin.{Request, Context, Response, Handler, no_keys, user_id}
use vergo.Http.Middleware.Auth.{bearer_token, is_api_key, auth_with_api_keys}
use vergo.Http.Middleware.Auth.Guard.{memberships-auth, auth-err, auth-key_id}
use vergo.Http.Middleware.Tenant.{tenant}
use vergo.Http.Middleware.Tenant.Guard.{tenant-some, tenant-err}
use vergo.Http.Router.{protected}

-- The key's identifier is no user of any membership.
pub record IsNoMember (ms : List Membership) (k : ApiKey) : Type 0 where
  pub at : (org_id : String) → find (is_membership org_id k.id) ms ≡ none

-- A result that is an error response.
pub data IsRefused {A : Type 0} : Res Response A → Type 0 where
  refused : (e : Response) → 400 ≤ e.status → IsRefused (err e)

user_id_of_key :
    (c : Context) (id uid : String) → c.user_id ≡ some id → user_id c ≡ some uid → id ≡ uid
unfolding user_id
user_id_of_key c id uid e u = ground arith

-- A request with an API key is refused on every protected route, whatever the handler, the header
-- X-Org-ID and the driver: the middleware looks for a membership of the key's identifier. The
-- condition is that no identifier of an API key is that of a member.
pub api_key-IsRefused :
    (p : Platform) (cfg : Config) (r : Request) (h : Context → Handler) (w : World) (token : String)
    → bearer_token r.authorization w ≡ (ok token, w)
    → is_api_key token ≡ true
    → All (IsNoMember w.memberships) w.api_keys
    → IsRefused (protected p cfg r h w).0
unfolding protected
api_key-IsRefused p cfg r h w token b k no_member =
    bind_cases (λ x. IsRefused x.0) (auth_with_api_keys p cfg true r no_keys)
      (λ c. tenant r c >>= h) w (λ e x. refused e (auth-err p cfg true r no_keys w e x))
      (λ c x.
        let v = (auth_with_api_keys p cfg true r no_keys w).1 in
        bind_cases (λ x. IsRefused x.0) (tenant r c) h v (λ e y. refused e (tenant-err r c v e y))
          (λ c' y.
            let (key, found, same) = auth-key_id p cfg r no_keys w token c b k x in
            let (uid, org_id, m, u, member, _) = tenant-some r c c' v y in
            let absent =
              (All-find (IsNoMember w.memberships) (live_hash (p.sha256_hex token)) w.api_keys key
                  found no_member).at
                org_id in
            let here : find (is_membership org_id uid) w.memberships ≡ some m =
              subst (λ (ms : List Membership). find (is_membership org_id uid) ms ≡ some m)
                (memberships-auth p cfg true r no_keys w) member in
            let same_id : find (is_membership org_id key.id) w.memberships ≡ some m =
              subst (λ (x : String). find (is_membership org_id x) w.memberships ≡ some m)
                (sym (user_id_of_key c key.id uid same u)) here in
            absurd (cc (absent, same_id))))
