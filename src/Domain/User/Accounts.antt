-- ===== src/Domain/User/Accounts.antt =====
-- Signing up and logging in.
use vergo.Prelude.{
  ℕ, ◌+◌, String, ◌==◌, ◌≡◌, ◌↔◌, Bool, true, some, inl, inr, [], arith, Option-cases, eq_refl,
}
use vergo.Table.{find}
use vergo.Table.Laws.{find-concat}
use vergo.Platform.{Platform}
use vergo.Db.{World, ok}
use vergo.Db.Rows
use vergo.Domain.User.{User, signup, login}

-- bcrypt accepts the password that a hash was made of.
pub record BcryptAccepts (p : Platform) : Type 0 where
  pub accepts :
      (n : ℕ) (password hash : String)
      → p.bcrypt_generate n password ≡ some hash
      → p.bcrypt_compare hash password ≡ true

abbrev pub has_email : String → Rows.User → Bool
has_email email u = u.email == email

module _ (p : Platform) (email password : String) (w : World) (f : w.faults ≡ []) where
  -- With the statements answered, a login succeeds exactly when a user has the e-mail and bcrypt
  -- accepts the password for the hash; the user that is returned is that row.
  pub login_iff :
      (u : User)
      → ((login p email password w).0 ≡ ok u) ↔ (
          (row : Rows.User) × (find (has_email email) w.users ≡ some row)
          × (p.bcrypt_compare row.password_hash password ≡ true)
          × (u ≡ record { id = row.id; email = row.email; password_hash = row.password_hash }))
  unfolding login
  login_iff u = (
    λ h. elim (Option-cases (find (has_email email) w.users)) [
      | inl e ↦ absurd (ground arith)
      | inr (row, e) ↦ (row, e, ground arith, ground arith)
    ],
    λ (row, e, c, x). ground arith,
  )

  -- With the statements answered, whoever signed up logs in with the same e-mail and password, as
  -- the same user, if bcrypt accepts the password that a hash was made of.
  pub login-signup :
      (u : User)
      → BcryptAccepts p
      → (signup p email password w).0 ≡ ok u
      → (login p email password (signup p email password w).1).0 ≡ ok u
  unfolding login signup
  login-signup u b h = elim (Option-cases (p.bcrypt_generate w.drawn password)) [
    | inl e ↦ absurd (ground arith)
    | inr (hash, e) ↦ elim (Option-cases (find (has_email email) w.users)) [
      | inr (row, g) ↦ absurd (ground arith)
      | inl g ↦ ground (
        arith,
        b.accepts w.drawn password hash e,
        eq_refl email,
        find-concat (has_email email) w.users
            (record {
              id = p.uuid (w.drawn + 1);
              email = email;
              password_hash = hash;
              created_at = w.now;
            })
            g (eq_refl email),
      )
    ]
  ]
