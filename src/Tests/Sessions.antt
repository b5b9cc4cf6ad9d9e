-- ===== src/Tests/Sessions.antt =====
-- Signing up, logging in, refreshing and resetting on the sample world.
use vergo.Prelude.{◌==◌, ◌≡◌, ◌↔◌, ◌≤◌, refl, true, false, none, some, List, [], ◌∷◌, arith, eq_iff}
use vergo.Prelude.Text.{append}
use vergo.Table.{find}
use vergo.Db.{World, ok}
use vergo.Db.Rows
use vergo.Repo.Tokens.{unrevoked_user}
use vergo.Auth.RefreshStore.{ValidToken, is_valid}
use vergo.Auth.RefreshStore.Revocation.{IsRevoked, has_id, is_valid_iff}
use vergo.Domain.User.{User}
use vergo.Domain.User
use vergo.Domain.User.Accounts.{BcryptAccepts, login_iff, login-signup, has_email}
use vergo.Http.Gin.{serve}
use vergo.Http.Handlers.Auth.{RefreshReq, ResetIn, reset_password, forgot_password, reset_sent}
use vergo.Http.Handlers.Auth.History.{Arrival, AuthCall}
use vergo.Http.Handlers.Auth.SingleUse.{ClaimsFixed}
use vergo.Http.Handlers.Auth.Reset.{reset_password_lem, forgot_password_says_nothing}
use vergo.Tests.Sample.{machine, platform, config, world, tables}

abbrev pub req : RefreshReq
req = record { refresh_token = "rt-ana" }

-- A second use of the token, and a log-in whose second statement fails.
abbrev later : List Arrival
later =
    record { call = AuthCall.refreshes (some req); now = 150; faults = [] }
    ∷ record {
      call = AuthCall.logs_in (some (record { email = "ana@x"; password = "pw" }));
      now = 160;
      faults = false ∷ true ∷ [];
    }
    ∷ []

pub claims_fixed : ClaimsFixed platform config.jwt_refresh_secret
claims_fixed = record { same = λ s t token c d e f. cc (e, f) }

abbrev j1 : Rows.RefreshToken
j1 = record {
  id = "j1";
  user_id = "ana";
  token_hash = "hrt-ana";
  expires_at = 900;
  revoked_at = some 90;
  rotated_from = none;
  created_at = 0;
}

abbrev revoked_world : World
revoked_world = record world { db = record tables { refresh_tokens = j1 ∷ [] } }

j1-IsRevoked : IsRevoked "j1" j1 (j1 ∷ [])
unfolding find
j1-IsRevoked = record { found = refl; marked = refl }

abbrev ana_until : ValidToken
ana_until = record { user_id = "ana"; expires_at = 900 }

is_valid_iff_example : ((is_valid platform "j1" "rt-ana" world).0 ≡ ok (some ana_until)) ↔ (
    (row : Rows.RefreshToken) × (find (has_id "j1") world.refresh_tokens ≡ some row)
    × (row.revoked_at ≡ none)
    × (100 ≤ row.expires_at)
    × (row.token_hash ≡ "hrt-ana")
    × (ana_until ≡ record { user_id = row.user_id; expires_at = row.expires_at }))
is_valid_iff_example = is_valid_iff platform "j1" "rt-ana" world ana_until refl

bcrypt_accepts : BcryptAccepts platform
bcrypt_accepts = record {
  accepts = λ n password hash e. ground (arith, e, eq_iff hash (append "b" password));
}

abbrev ana : User
ana = record { id = "ana"; email = "ana@x"; password_hash = "bpw" }

login_iff_example : ((User.login platform "ana@x" "pw" world).0 ≡ ok ana) ↔ (
    (row : Rows.User) × (find (has_email "ana@x") world.users ≡ some row)
    × (platform.bcrypt_compare row.password_hash "pw" ≡ true)
    × (ana ≡ record { id = row.id; email = row.email; password_hash = row.password_hash }))
login_iff_example = login_iff platform "ana@x" "pw" world refl ana

abbrev eve : User
eve = record { id = "id1"; email = "eve@x"; password_hash = "bnew" }

login-signup_example :
    (User.login platform "eve@x" "new" (User.signup platform "eve@x" "new" world).1).0 ≡ ok eve
unfolding User.signup find
login-signup_example = login-signup platform "eve@x" "new" world refl eve bcrypt_accepts refl

abbrev reset_req : ResetIn
reset_req = record { token = "reset"; new_password = "new" }

reset_password_example :
    (find
        (unrevoked_user "ana")
        (serve (reset_password platform config (some reset_req)) world).1.refresh_tokens
      ≡ none)
    × (changed : Rows.User) × (find
          (λ u. u.id == "ana")
          (serve (reset_password platform config (some reset_req)) world).1.users
        ≡ some changed)
    × (platform.bcrypt_compare changed.password_hash "new" ≡ true)
unfolding reset_password machine
reset_password_example =
    reset_password_lem platform config reset_req world refl "ana"
      (record { id = "ana"; email = "ana@x"; password_hash = "bpw"; created_at = 0 }) bcrypt_accepts
      refl refl refl

forgot_password_example :
    (serve (forgot_password platform config (some (record { email = "no@x" }))) world).0
    ≡ reset_sent
forgot_password_example =
    forgot_password_says_nothing platform config (record { email = "no@x" }) world
