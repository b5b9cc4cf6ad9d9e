-- ===== src/Http/Handlers/Auth/Reset.antt =====
-- The password reset.
use vergo.Prelude.{
  String, ◌==◌, ◌≡◌, refl, true, none, some, inl, inr, [], arith, Option-cases, All, eq_iff,
  eq_refl, List, is_some, subst, ℕ, ◌∷◌,
}
use vergo.Table.{find, update}
use vergo.Repo.ResetTrail.{IsSpent, there-mark}
use vergo.Table.Laws.{
  find-update-none, find-update-none_here, find_holds, find-update, All-find, All-map,
}
use vergo.Platform.{Platform}
use vergo.Config.{Config}
use vergo.Db.{World, ok}
use vergo.Db.Rows
use vergo.Repo.Tokens.{unrevoked_user, revoked, unused_hash}
use vergo.Auth.RefreshStore.{revoke_all_for_user}
use vergo.Auth.ResetStore.{validate_and_consume}
use vergo.Domain.User
use vergo.Domain.User.Accounts.{BcryptAccepts}
use vergo.Http.Gin.{Response, Body, reply, serve}
use vergo.Http.Handlers.Auth.{ForgotIn, ResetIn, forgot_password, reset_password, reset_sent}

-- The unique constraint on the hash of a reset token.
abbrev pub HashIsUnique : List Rows.PasswordResetToken → Type 0
HashIsUnique rows = All (λ r. All (λ s. r.token_hash ≡ s.token_hash → s.id ≡ r.id) rows) rows

module _ (p : Platform) (cfg : Config) where
  -- The answer does not tell whether the e-mail belongs to a user, whatever the driver does.
  pub forgot_password_says_nothing :
      (req : ForgotIn) (w : World) → (serve (forgot_password p cfg (some req)) w).0 ≡ reset_sent
  unfolding forgot_password
  forgot_password_says_nothing req w = ground arith

module _ (p : Platform) (token : String) (w : World) (f : w.faults ≡ []) where
  same_hash-same_id :
      (row : Rows.PasswordResetToken)
      → find (unused_hash (p.sha256_hex token)) w.password_reset_tokens ≡ some row
      → HashIsUnique w.password_reset_tokens
      → All
          (λ x. unused_hash (p.sha256_hex token) x ≡ true → (x.id == row.id) ≡ true)
          w.password_reset_tokens
  same_hash-same_id row e u =
      All-map _ _
        (λ x k y. ground (
          arith,
          k,
          eq_iff x.token_hash (p.sha256_hex token),
          eq_iff row.token_hash (p.sha256_hex token),
          eq_refl row.id,
          find_holds (unused_hash (p.sha256_hex token)) w.password_reset_tokens row e,
        ))
        w.password_reset_tokens
        (All-find _ (unused_hash (p.sha256_hex token)) w.password_reset_tokens row e u)

  there-accepted :
      (row : Rows.PasswordResetToken) (rs : List Rows.PasswordResetToken)
      → find (unused_hash (p.sha256_hex token)) rs ≡ some row
      → is_some (find (λ r. r.token_hash == p.sha256_hex token) rs) ≡ true
  unfolding find
  there-accepted row [] e = absurd (ground (arith, e))
  there-accepted row (x ∷ xs) e = ground (arith, e, there-accepted row xs)

  -- The rows behind the use of one of them.
  consumed-IsSpent :
      (row : Rows.PasswordResetToken) (now : ℕ)
      → find (unused_hash (p.sha256_hex token)) w.password_reset_tokens ≡ some row
      → HashIsUnique w.password_reset_tokens
      → IsSpent (p.sha256_hex token) (
          update
            (λ r. r.id == row.id)
            (λ r. record r { used_at = some now })
            w.password_reset_tokens)
  consumed-IsSpent row now e u = record {
    there =
        there-mark (p.sha256_hex token) w.password_reset_tokens row.id now
          (there-accepted row w.password_reset_tokens e);
    unused =
        find-update-none_here (unused_hash (p.sha256_hex token)) (λ r. r.id == row.id)
          (λ r. record r { used_at = some now }) w.password_reset_tokens (λ x y. ground arith)
          (same_hash-same_id row e u);
  }

  pub reset_password-IsSpent :
      (cfg : Config) (req : ResetIn)
      → req.token ≡ token
      → HashIsUnique w.password_reset_tokens
      → (serve (reset_password p cfg (some req)) w).0.status ≡ 200
      → IsSpent
          (p.sha256_hex token)
          (serve (reset_password p cfg (some req)) w).1.password_reset_tokens
  unfolding reset_password validate_and_consume revoke_all_for_user User.update_password
  reset_password-IsSpent cfg req same u h =
      elim (Option-cases (find (unused_hash (p.sha256_hex token)) w.password_reset_tokens)) [
        | inl e ↦ absurd (ground (arith, same, f))
        | inr (row, e) ↦
            subst (IsSpent (p.sha256_hex token)) (ground (arith, same, f, h, e))
              (consumed-IsSpent row w.now e u)
      ]

abbrev pub invalid_reset : Response
invalid_reset = reply 401 (Body.error "invalid_or_expired_token")

module _ (p : Platform) (cfg : Config) (req : ResetIn) where
  -- Whatever the driver does, a token that was used is refused.
  pub spent_refused :
      (w : World)
      → IsSpent (p.sha256_hex req.token) w.password_reset_tokens
      → (serve (reset_password p cfg (some req)) w).0 ≡ invalid_reset
  unfolding reset_password validate_and_consume
  spent_refused w s = ground (arith, s.unused)

module _ (p : Platform) (cfg : Config) (req : ResetIn) (w : World) (f : w.faults ≡ []) where
  -- With the statements answered, after a reset that succeeds no refresh token of the user is
  -- unrevoked, and bcrypt accepts the new password for the user's row.
  pub reset_password_lem :
      (uid : String) (user : Rows.User)
      → BcryptAccepts p
      → (validate_and_consume p req.token w).0 ≡ ok uid
      → find (λ u. u.id == uid) w.users ≡ some user
      → (serve (reset_password p cfg (some req)) w).0.status ≡ 200
      → (find (unrevoked_user uid) (serve (reset_password p cfg (some req)) w).1.refresh_tokens
          ≡ none)
        × (changed : Rows.User) × (find
              (λ u. u.id == uid)
              (serve (reset_password p cfg (some req)) w).1.users
            ≡ some changed)
        × (p.bcrypt_compare changed.password_hash req.new_password ≡ true)
  unfolding reset_password validate_and_consume revoke_all_for_user User.update_password
  reset_password_lem uid user b h g s =
      elim (Option-cases (find (unused_hash (p.sha256_hex req.token)) w.password_reset_tokens)) [
        | inl e ↦ absurd (ground arith)
        | inr (row, e) ↦ elim (Option-cases (p.bcrypt_generate w.drawn req.new_password)) [
          | inl k ↦ absurd (ground arith)
          | inr (hash, k) ↦ (
            ground (
              arith,
              find-update-none (unrevoked_user uid) (unrevoked_user uid) (revoked w.now)
                  w.refresh_tokens (λ x y. ground arith) (λ x y. y),
            ),
            record user { password_hash = hash },
            ground (
              arith,
              find_holds (λ u. u.id == uid) w.users user g,
              find-update (λ u. u.id == uid) (λ u. u.id == uid)
                  (λ u. record u { password_hash = hash }) w.users (λ x. refl),
            ),
            b.accepts w.drawn req.new_password hash k,
          )
        ]
      ]
