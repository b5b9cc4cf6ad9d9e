-- ===== src/Domain/User/Memory/Relation.antt =====
-- What it means that the users in memory are those of the table, and what keeps it.
use vergo.Prelude.{
  ℕ, ◌≤◌, ◌<◌, String, ◌==◌, ◌≡◌, Bool, true, false, Option, none, some, [], ◌∷◌, ◌++◌, arith, inl,
  inr, Option-cases, eq_refl, eq_iff,
}
use vergo.Table.{find}
use vergo.Table.Laws.{find-append, find-concat, find-append_some}
use vergo.Platform.{Platform}
use vergo.Db.{World}
use vergo.Db.Rows
use vergo.Domain.User.{User, of_row}
use vergo.Domain.User.Memory.{Memory}
use vergo.Domain.User.Memory

abbrev pub has_email : String → Rows.User → Bool
has_email email u = u.email == email

abbrev pub has_id : String → Rows.User → Bool
has_id id u = u.id == id

abbrev pub id_of : Option Rows.User → Option String
id_of none = none
id_of (some row) = some row.id

abbrev pub user_of : Option Rows.User → Option User
user_of none = none
user_of (some row) = some (of_row row)

-- The memory holds what the table holds, the statements are answered, no two users share an
-- identifier where one of them is found by e-mail, and no identifier to come is in the table.
pub record Represents (p : Platform) (m : Memory) (w : World) : Type 0 where
  pub by_email : (e : String) → m.by_email e ≡ id_of (find (has_email e) w.users)
  pub by_id : (i : String) → m.by_id i ≡ user_of (find (has_id i) w.users)
  pub one_id :
      (e : String) (row : Rows.User)
      → find (has_email e) w.users ≡ some row
      → find (has_id row.id) w.users ≡ some row
  pub healthy : w.faults ≡ []
  pub fresh : (k : ℕ) → w.drawn ≤ k → find (has_id (p.uuid k)) w.users ≡ none

-- uuid.NewString never draws an identifier twice.
pub record Distinct (p : Platform) : Type 0 where
  pub apart : (j k : ℕ) → j < k → (p.uuid j == p.uuid k) ≡ false

module _ (p : Platform) (m : Memory) (w v : World) (r : Represents p m w) where
  eq_same : (a b : String) → (a == b) ≡ true → a ≡ b
  eq_same a b h = (eq_iff a b).0 h

  -- Where the table stays, more draws change nothing.
  pub Represents-draws : v.users ≡ w.users → v.faults ≡ [] → w.drawn ≤ v.drawn → Represents p m v
  Represents-draws u f d = record {
    by_email = λ e. rw u (r.by_email e);
    by_id = λ i. rw u (r.by_id i);
    one_id = λ e row h. ground (arith, u, h, r.one_id e row);
    healthy = f;
    fresh = λ k h. ground (arith, u, r.fresh k (omega (arith, h, d)));
  }

  module _ (row : Rows.User) (free : find (has_email row.email) w.users ≡ none)
      (free_id : find (has_id row.id) w.users ≡ none) (users : v.users ≡ w.users ++ row ∷ []) where
    insert-by_email :
        (e : String) → Memory.put row.email row.id m.by_email e ≡ id_of (find (has_email e) v.users)
    unfolding find
    insert-by_email e = ground (
      arith,
      users,
      find-append (has_email e) w.users (row ∷ []),
      r.by_email e,
      free,
      eq_same row.email e,
    )

    insert-by_id :
        (i : String) → Memory.put row.id (of_row row) m.by_id i ≡ user_of (find (has_id i) v.users)
    unfolding find
    insert-by_id i = ground (
      arith,
      users,
      find-append (has_id i) w.users (row ∷ []),
      r.by_id i,
      free_id,
      eq_same row.id i,
    )

    insert-one_id :
        (e : String) (x : Rows.User)
        → find (has_email e) v.users ≡ some x
        → find (has_id x.id) v.users ≡ some x
    unfolding find
    insert-one_id e x h = elim (Option-cases (find (has_email e) w.users)) [
      | inr (y, g) ↦ ground (
        arith,
        users,
        h,
        g,
        r.one_id e y g,
        find-append_some (has_email e) w.users (row ∷ []) y g,
        find-append_some (has_id y.id) w.users (row ∷ []) y,
      )
      | inl g ↦ ground (
        arith,
        users,
        h,
        g,
        find-append (has_email e) w.users (row ∷ []),
        find-concat (has_id row.id) w.users row free_id (eq_refl row.id),
      )
    ]

    -- A row behind the others, whose identifier no later draw gives.
    pub Represents-insert :
        v.faults ≡ []
        → w.drawn ≤ v.drawn
        → ((k : ℕ) → v.drawn ≤ k → (row.id == p.uuid k) ≡ false)
        → Represents p
            (record {
              by_id = Memory.put row.id (of_row row) m.by_id;
              by_email = Memory.put row.email row.id m.by_email;
            })
            v
    unfolding find
    Represents-insert f d other = record {
      by_email = insert-by_email;
      by_id = insert-by_id;
      one_id = insert-one_id;
      healthy = f;
      fresh = λ k h. ground (
        arith,
        users,
        other k h,
        find-append (has_id (p.uuid k)) w.users (row ∷ []),
        r.fresh k (omega (arith, h, d)),
      );
    }
