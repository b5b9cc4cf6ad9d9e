-- ===== src/Domain/User/Memory/Signups.antt =====
-- A sign-up in memory and in the table.
use vergo.Prelude.{
  ◌+◌, String, ◌≡◌, true, none, some, [], ◌∷◌, ◌++◌, arith, is_some, inl, inr, Option-cases, subst,
  sym, ap,
}
use vergo.Table.{find}
use vergo.Platform.{Platform}
use vergo.Db.{World, Err, ok, err, fail_as}
use vergo.Db.Rows
use vergo.Domain.User.{User, of_row}
use vergo.Domain.User
use vergo.Domain.User.Memory.{Memory}
use vergo.Domain.User.Memory
use vergo.Domain.User.Memory.Relation.{
  Represents, Represents-draws, Represents-insert, Distinct, has_email,
}

-- The errors of the table under the names of the memory's.
abbrev pub named : Err → Err
named Err.unique_violation = Err.email_in_use
named other = other

module _ (p : Platform) (m : Memory) (w : World) (r : Represents p m w) where
  -- A sign-up, where the identifier and the salt are the same draws on both sides.
  module _ (email password hash : String) (g : p.bcrypt_generate w.drawn password ≡ some hash) where
    abbrev next_memory : Memory
    next_memory = (Memory.signup p (w.drawn + 1) w.drawn email password m).1

    abbrev next_world : World
    next_world = (User.signup p email password w).1

    abbrev new_row : Rows.User
    new_row = record {
      id = p.uuid (w.drawn + 1);
      email = email;
      password_hash = hash;
      created_at = w.now;
    }

    signup_taken :
        (row : Rows.User)
        → find (has_email email) w.users ≡ some row
        → ((Memory.signup p (w.drawn + 1) w.drawn email password m).0 ≡ err Err.email_in_use)
          × (next_memory ≡ m)
          × ((User.signup p email password w).0 ≡ err Err.unique_violation)
          × (next_world.users ≡ w.users)
          × (next_world.faults ≡ [])
          × (next_world.drawn ≡ w.drawn + 1 + 1)
    unfolding Memory.signup User.signup
    signup_taken row e = (
      ground (arith, r.by_email email, e),
      ground (arith, r.by_email email, e),
      ground (arith, g, e, r.healthy),
      ground (arith, g, e, r.healthy),
      ground (arith, g, e, r.healthy),
      ground (arith, g, e, r.healthy),
    )

    signup_new :
        find (has_email email) w.users ≡ none
        → (Memory.signup p (w.drawn + 1) w.drawn email password m ≡ (
          ok (of_row new_row),
          record {
            by_id = Memory.put new_row.id (of_row new_row) m.by_id;
            by_email = Memory.put email new_row.id m.by_email;
          },
        ))
          × ((User.signup p email password w).0 ≡ ok (of_row new_row))
          × (next_world.users ≡ w.users ++ new_row ∷ [])
          × (next_world.faults ≡ [])
          × (next_world.drawn ≡ w.drawn + 1 + 1)
    unfolding Memory.signup User.signup
    signup_new e =
        let free = r.fresh (w.drawn + 1) (omega arith) in
        (
          ground (arith, r.by_email email, e, g),
          ground (arith, g, e, free, r.healthy),
          ground (arith, g, e, free, r.healthy),
          ground (arith, g, e, free, r.healthy),
          ground (arith, g, e, free, r.healthy),
        )

  -- A sign-up keeps the memory and the table alike and is answered alike, where bcrypt makes a hash.
  pub signup_same :
      (email password : String)
      → is_some (p.bcrypt_generate w.drawn password) ≡ true
      → Distinct p
      → ((Memory.signup p (w.drawn + 1) w.drawn email password m).0
          ≡ fail_as named (User.signup p email password w).0)
        × Represents p
            (Memory.signup p (w.drawn + 1) w.drawn email password m).1
            (User.signup p email password w).1
  signup_same email password h d = elim (Option-cases (p.bcrypt_generate w.drawn password)) [
    | inl e ↦ absurd (ground (arith, h, e))
    | inr (hash, g) ↦ elim (Option-cases (find (has_email email) w.users)) [
      | inr (row, e) ↦
          let (a, same, b, users, faults, drawn) = signup_taken email password hash g row e in
          (
            ground (arith, a, b),
            subst (λ x. Represents p x (User.signup p email password w).1) (sym same)
                (Represents-draws p m w _ r users faults (omega (arith, drawn))),
          )
      | inl e ↦
          let (a, b, users, faults, drawn) = signup_new email password hash g e in
          (
            ground (arith, a, b),
            subst (λ x. Represents p x (User.signup p email password w).1) (sym (ap (λ x. x.1) a))
                (Represents-insert p m w _ r (new_row email password hash g) e
                  (r.fresh (w.drawn + 1) (omega arith)) users faults (omega (arith, drawn))
                  (λ k l. d.apart (w.drawn + 1) k (omega (arith, drawn, l)))),
          )
    ]
  ]
