-- ===== src/Auth/Jwt.antt =====
-- internal/auth/jwt.go
use vergo.Prelude.{ℕ, String, ◌*◌, ◌^◌, Option, none, some}
use vergo.Prelude.Int.{ℤ, add_units}
use vergo.Platform.{Platform, Claims}
use vergo.Db.{Act, Err, Res, ok, err, draw, pure, gets, lift, ◌>>=◌}

-- Durations in nanoseconds.
abbrev pub second : ℕ
second = 10 ^ 9

abbrev pub minute : ℕ
minute = 60 * second

abbrev pub hour : ℕ
hour = 60 * minute

abbrev pub or_error : {A : Type 0} → Err → Option A → Res Err A
or_error e none = err e
or_error e (some a) = ok a

pub record SignedRefresh : Type 0 where
  pub token : String
  pub jti : String
  pub expires_at : ℕ

module _ (p : Platform) where
  unfoldable pub new_access_token : String → String → ℤ → Act Err String
  new_access_token user_id secret ttl_minutes = do
    now ← gets (λ w. w.now)
    n ← draw
    lift (
        or_error Err.jwt_error (
          p.sign_jwt
            (record {
              user_id = user_id;
              token_type = "access";
              id = p.uuid n;
              issued_at = p.numeric_date now;
              expires_at = p.numeric_date (add_units now ttl_minutes minute);
            })
            secret))

  unfoldable pub new_refresh_token : String → String → ℤ → Act Err SignedRefresh
  new_refresh_token user_id secret ttl_days = do
    now ← gets (λ w. w.now)
    let exp = add_units now ttl_days (24 * hour)
    n ← draw
    signed ← lift (
        or_error Err.jwt_error (
          p.sign_jwt
            (record {
              user_id = user_id;
              token_type = "refresh";
              id = p.uuid n;
              issued_at = p.numeric_date now;
              expires_at = p.numeric_date exp;
            })
            secret))
    pure (record { token = signed; jti = p.uuid n; expires_at = exp })

  unfoldable pub parse : String → String → Act Err Claims
  parse token secret = do
    now ← gets (λ w. w.now)
    lift (or_error Err.jwt_error (p.parse_jwt now token secret))
