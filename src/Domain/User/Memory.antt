-- ===== src/Domain/User/Memory.antt =====
-- internal/domain/user/service.go: the service that keeps users in two maps. Its mutex makes the
-- calls a sequence. The numbers of the draws of a call are its arguments.
pub mod Relation
pub mod Signups
pub mod Passwords
pub mod Refinement
use vergo.Prelude.{ℕ, String, ◌==◌, Option, none, some, if◌then◌else◌}
use vergo.Platform.{Platform}
use vergo.Db.{Err, Res, ok, err}
use vergo.Domain.User.{User}

-- `by_email` holds identifiers.
pub record Memory : Type 0 where
  pub by_id : String → Option User
  pub by_email : String → Option String

abbrev pub put : {A : Type 0} → String → A → (String → Option A) → String → Option A
put key value m k = if key == k then some value else m k

-- `u := m[k]`, where a missing user is the zero user.
abbrev pub or_zero : Option User → User
or_zero none = record { id = ""; email = ""; password_hash = "" }
or_zero (some u) = u

-- `hash, _ := ...`: of an error the hash is "".
abbrev pub or_no_hash : Option String → String
or_no_hash none = ""
or_no_hash (some hash) = hash

abbrev pub new_memory : Memory
new_memory = record { by_id = λ k. none; by_email = λ k. none }

module _ (p : Platform) where
  -- The number of the draw of the identifier, and that of the salt.
  unfoldable pub signup : ℕ → ℕ → String → String → Memory → Res Err User × Memory
  signup id_draw salt email password m = elim (m.by_email email) [
    | some taken ↦ (err Err.email_in_use, m)
    | none ↦
        let u : User = record {
          id = p.uuid id_draw;
          email = email;
          password_hash = or_no_hash (p.bcrypt_generate salt password);
        } in
        (ok u, record { by_id = put u.id u m.by_id; by_email = put email u.id m.by_email })
  ]

  unfoldable pub login : String → String → Memory → Res Err User
  login email password m = elim (m.by_email email) [
    | none ↦ err Err.invalid_login
    | some id ↦
        let u = or_zero (m.by_id id) in
        if p.bcrypt_compare u.password_hash password then ok u else err Err.invalid_login
  ]

unfoldable pub get_by_id : String → Memory → Res Err User
get_by_id id m = elim (m.by_id id) [ none ↦ err Err.user_not_found | some u ↦ ok u ]

unfoldable pub get_by_email : String → Memory → Res Err User
get_by_email email m = elim (m.by_email email) [
  | none ↦ err Err.user_not_found
  | some id ↦ ok (or_zero (m.by_id id))
]

unfoldable pub update_password : String → String → Memory → Res Err (Unit {0}) × Memory
update_password user_id new_password_hash m = elim (m.by_id user_id) [
  | none ↦ (err Err.user_not_found, m)
  | some u ↦ (
    ok tt,
    record m { by_id = put user_id (record u { password_hash = new_password_hash }) m.by_id },
  )
]
