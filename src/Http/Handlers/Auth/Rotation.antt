-- ===== src/Http/Handlers/Auth/Rotation.antt =====
-- Refresh tokens over whole histories of requests.
use vergo.Prelude.{String, List, Option, none, some, ◌≡◌, refl, ap, arith}
use vergo.Prelude.Int.{ℤ}
use vergo.Platform.{Platform}
use vergo.Config.{Config}
use vergo.Db.{World, Act, Err, draw, lift, pure, or_fail, attempt, ignore, ◌>>=◌, ◌>>◌}
use vergo.Db.Keeps.{Keeps, Keeps-still, Keeps-part, Keeps-or_fail, Keeps-ignore, Keeps-bind}
use vergo.Db.Rows.{RefreshToken}
use vergo.Auth.Jwt.{new_access_token, new_refresh_token, SignedRefresh, or_error}
use vergo.Auth.RefreshStore.{save_refresh, is_valid, revoke, revoke_all_for_user}
use vergo.Auth.RefreshStore.Revocation.{
  IsRevoked, revoke-IsRevoked, revoke_all-IsRevoked, save-IsRevoked, refresh_tokens-is_valid,
}
use vergo.Auth.ResetStore.{create_reset_token, validate_and_consume}
use vergo.Domain.User
use vergo.Http.Gin.{Response, Body, reply, fails, bind, require, user_id}
use vergo.Http.Handlers.Auth.{
  RefreshReq, ResetIn, issue, reissue, signup, login, refresh_claims, rotate, refresh, logout,
  forgot_password, reset_password, logout_all, invalid_refresh, reset_sent, valid_user,
}
use vergo.Http.Handlers.Auth.History.{
  signs_up, logs_in, refreshes, logs_out, forgets, resets, logs_out_all, AuthCall, Arrival, handle,
  run, run_induction,
}

abbrev pub rows : World → List RefreshToken
rows w = w.refresh_tokens

module _ (p : Platform) (cfg : Config) where
  -- The parts that write no refresh token.
  rows-new_access :
      (uid s : String) (ttl : ℤ) (w : World) → rows (new_access_token p uid s ttl w).1 ≡ rows w
  unfolding new_access_token
  rows-new_access uid s ttl w = ground arith

  rows-new_refresh :
      (uid s : String) (ttl : ℤ) (w : World) → rows (new_refresh_token p uid s ttl w).1 ≡ rows w
  unfolding new_refresh_token
  rows-new_refresh uid s ttl w = ground arith

  rows-signup : (e s : String) (w : World) → rows (User.signup p e s w).1 ≡ rows w
  unfolding User.signup
  rows-signup e s w = ground arith

  rows-login : (e s : String) (w : World) → rows (User.login p e s w).1 ≡ rows w
  unfolding User.login
  rows-login e s w = ground arith

  rows-get_by_email : (e : String) (w : World) → rows (User.get_by_email e w).1 ≡ rows w
  unfolding User.get_by_email
  rows-get_by_email e w = ground arith

  rows-update_password : (e s : String) (w : World) → rows (User.update_password e s w).1 ≡ rows w
  unfolding User.update_password
  rows-update_password e s w = ground arith

  rows-create_reset : (uid : String) (w : World) → rows (create_reset_token p uid w).1 ≡ rows w
  unfolding create_reset_token
  rows-create_reset uid w = ground arith

  rows-consume : (t : String) (w : World) → rows (validate_and_consume p t w).1 ≡ rows w
  unfolding validate_and_consume
  rows-consume t w = ground arith

  pub world-refresh_claims : (t : String) (w : World) → (refresh_claims p cfg t w).1 ≡ w
  unfolding refresh_claims
  world-refresh_claims t w = ground arith

module _ (p : Platform) (cfg : Config) (id : String) (row : RefreshToken) where
  abbrev pub Revoked : World → Type 0
  Revoked w = IsRevoked id row (rows w)

  -- A step that writes no refresh token, and what comes after it.
  after_part :
      {E A B : Type 0} (m : Act E A) (k : A → Act E B)
      → ((w : World) → rows (m w).1 ≡ rows w)
      → ((a : A) → Keeps Revoked (k a))
      → Keeps Revoked (m >>= k)
  after_part m k same rest = Keeps-bind Revoked m k (Keeps-part rows (IsRevoked id row) m same) rest

  after_call :
      {E F A B : Type 0} (m : Act E A) (f : E → F) (k : A → Act F B)
      → ((w : World) → rows (m w).1 ≡ rows w)
      → ((a : A) → Keeps Revoked (k a))
      → Keeps Revoked (or_fail f m >>= k)
  after_call m f k same rest = after_part (or_fail f m) k same rest

  answers : {E A : Type 0} (m : Act E A) → ((w : World) → (m w).1 ≡ w) → Keeps Revoked m
  answers m still = Keeps-still Revoked m still

  save-Revoked :
      (uid : String) (from : Option String) (rt : SignedRefresh) (r : Response)
      → Keeps Revoked (
          or_fail (fails 500 "store_error") (save_refresh p rt.jti uid rt.token rt.expires_at from)
          >> pure r)
  save-Revoked uid from rt r =
      Keeps-bind Revoked
        (or_fail (fails 500 "store_error") (save_refresh p rt.jti uid rt.token rt.expires_at from))
        _
        (Keeps-or_fail Revoked _ (save-IsRevoked id row p rt.jti uid rt.token rt.expires_at from) _)
        λ _. answers (pure r) (λ w. refl)

  issue-Revoked : (u : User.User) → Keeps Revoked (issue p cfg u)
  unfolding issue
  issue-Revoked u =
      after_call (new_access_token p u.id cfg.jwt_access_secret cfg.jwt_access_ttl_minutes)
        (fails 500 "token_error") _ (rows-new_access p cfg u.id _ _)
        λ at.
          after_call (new_refresh_token p u.id cfg.jwt_refresh_secret cfg.jwt_refresh_ttl_days)
            (fails 500 "token_error") _ (rows-new_refresh p cfg u.id _ _)
            λ rt. save-Revoked u.id none rt (reply 200 (Body.user_tokens u.id u.email at rt.token))

  pub reissue-Revoked : (jti uid : String) → Keeps Revoked (reissue p cfg jti uid)
  unfolding reissue
  reissue-Revoked jti uid =
      after_call (new_access_token p uid cfg.jwt_access_secret cfg.jwt_access_ttl_minutes)
        (fails 500 "token_error") _ (rows-new_access p cfg uid _ _)
        λ at.
          after_call (new_refresh_token p uid cfg.jwt_refresh_secret cfg.jwt_refresh_ttl_days)
            (fails 500 "token_error") _ (rows-new_refresh p cfg uid _ _)
            λ rt. save-Revoked uid (some jti) rt (reply 200 (Body.tokens at rt.token))

  rotate-Revoked : (jti uid : String) → Keeps Revoked (rotate p cfg jti uid)
  unfolding rotate
  rotate-Revoked jti uid =
      Keeps-bind Revoked (ignore (revoke jti)) _
        (Keeps-ignore Revoked _ (revoke-IsRevoked id row jti)) λ _. reissue-Revoked jti uid

  refresh-Revoked : (body : Option RefreshReq) → Keeps Revoked (refresh p cfg body)
  unfolding refresh
  refresh-Revoked body =
      after_part (bind body) _ (λ w. ground arith)
        λ req.
          after_part (refresh_claims p cfg req.refresh_token) _
            (λ w. ap rows (world-refresh_claims p cfg req.refresh_token w))
            λ claims.
              after_call (is_valid p claims.id req.refresh_token) (λ _. invalid_refresh) _
                (refresh_tokens-is_valid p claims.id req.refresh_token)
                λ found.
                  after_part (lift (valid_user found)) _ (λ w. refl)
                    λ v. rotate-Revoked claims.id v.user_id

  logout-Revoked : (body : Option RefreshReq) → Keeps Revoked (logout p cfg body)
  unfolding logout
  logout-Revoked body =
      after_part (bind body) _ (λ w. ground arith)
        λ req.
          after_part (refresh_claims p cfg req.refresh_token) _
            (λ w. ap rows (world-refresh_claims p cfg req.refresh_token w))
            λ claims.
              Keeps-bind Revoked (ignore (revoke claims.id)) _
                (Keeps-ignore Revoked _ (revoke-IsRevoked id row claims.id))
                λ _. answers (pure (reply 204 Body.empty)) (λ w. refl)

  reset-Revoked : (body : Option ResetIn) → Keeps Revoked (reset_password p cfg body)
  unfolding reset_password
  reset-Revoked body =
      after_part (bind body) _ (λ w. ground arith)
        λ req.
          after_call (validate_and_consume p req.token) (fails 401 "invalid_or_expired_token") _
            (rows-consume p cfg req.token)
            λ uid.
              after_part draw _ (λ w. refl)
                λ salt.
                  after_call
                    (lift (or_error Err.bcrypt_error (p.bcrypt_generate salt req.new_password)))
                    (fails 500 "hash_error") _ (λ w. refl)
                    λ hash.
                      after_call (User.update_password uid hash) (fails 500 "update_failed") _
                        (rows-update_password p cfg uid hash)
                        λ _.
                          Keeps-bind Revoked (ignore (revoke_all_for_user uid)) _
                            (Keeps-ignore Revoked _ (revoke_all-IsRevoked id row uid))
                            λ _.
                              answers (pure (reply 200 (Body.message "password_reset_successful")))
                                (λ w. refl)

  handle-Revoked : (c : AuthCall) → Keeps Revoked (handle p cfg c)
  unfolding handle signup login forgot_password logout_all
  handle-Revoked (signs_up body) =
      after_part (bind body) _ (λ w. ground arith)
        λ creds.
          after_call (User.signup p creds.email creds.password) (λ e. reply 409 (Body.error_text e))
            _ (rows-signup p cfg creds.email creds.password)
            λ u.
              Keeps-bind Revoked (issue p cfg u) _ (issue-Revoked u)
                λ r. answers (pure (record r { status = 201 })) (λ w. refl)
  handle-Revoked (logs_in body) =
      after_part (bind body) _ (λ w. ground arith)
        λ creds.
          after_call (User.login p creds.email creds.password) (fails 401 "invalid_credentials") _
            (rows-login p cfg creds.email creds.password) λ u. issue-Revoked u
  handle-Revoked (refreshes body) = refresh-Revoked body
  handle-Revoked (logs_out body) = logout-Revoked body
  handle-Revoked (forgets body) =
      after_part (bind body) _ (λ w. ground arith)
        λ req.
          after_call (User.get_by_email req.email) (λ _. reset_sent) _
            (rows-get_by_email p cfg req.email)
            λ u.
              after_part (attempt (create_reset_token p u.id)) _ (rows-create_reset p cfg u.id)
                λ _. answers (pure reset_sent) (λ w. refl)
  handle-Revoked (resets body) = reset-Revoked body
  handle-Revoked (logs_out_all c) =
      after_part (require (reply 401 (Body.error "missing_user")) (user_id c)) _ (λ w. ground arith)
        λ uid.
          Keeps-bind Revoked (ignore (revoke_all_for_user uid)) _
            (Keeps-ignore Revoked _ (revoke_all-IsRevoked id row uid))
            λ _. answers (pure (reply 204 Body.empty)) (λ w. refl)

  -- Once revoked, the row of a refresh token stays as it is, whatever requests come to the
  -- authentication handlers, whenever they come and whichever statements the driver fails.
  pub IsRevoked-for_ever :
      (arrivals : List Arrival) (w : World)
      → IsRevoked id row w.refresh_tokens
      → IsRevoked id row (run p cfg arrivals w).refresh_tokens
  IsRevoked-for_ever arrivals w h =
      run_induction p cfg Revoked handle-Revoked (λ now faults w k. k) arrivals w h
