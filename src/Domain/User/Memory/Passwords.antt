-- ===== src/Domain/User/Memory/Passwords.antt =====
-- An update of a password in memory and in the table.
use vergo.Prelude.{
  String, ◌≡◌, refl, Bool, some, [], arith, inl, inr, Option-cases, if◌then◌else◌, eq_iff,
}
use vergo.Table.{find, update}
use vergo.Table.Laws.{find-update, find_holds, map_some}
use vergo.Platform.{Platform}
use vergo.Db.{World, ok}
use vergo.Db.Rows
use vergo.Domain.User.{User, of_row}
use vergo.Domain.User
use vergo.Domain.User.Memory.{Memory}
use vergo.Domain.User.Memory
use vergo.Domain.User.Memory.Relation.{Represents, has_email, has_id, user_of}

abbrev with_hash : String → Rows.User → Rows.User
with_hash hash u = record u { password_hash = hash }

module _ (p : Platform) (m : Memory) (w : World) (r : Represents p m w) (id hash : String) where
  abbrev updated : World
  updated = (User.update_password id hash w).1

  update_password_rows :
      ((User.update_password id hash w).0 ≡ ok tt)
      × (updated.users ≡ update (has_id id) (with_hash hash) w.users)
      × (updated.faults ≡ [])
      × (updated.drawn ≡ w.drawn)
  unfolding User.update_password
  update_password_rows = (
    ground (arith, r.healthy),
    ground (arith, r.healthy),
    ground (arith, r.healthy),
    ground (arith, r.healthy),
  )

  updated_find :
      (q : Rows.User → Bool)
      → ((x : Rows.User) → q (with_hash hash x) ≡ q x)
      → find q updated.users
        ≡ map_some (λ x. if has_id id x then with_hash hash x else x) (find q w.users)
  updated_find q h =
      ground (arith, update_password_rows, find-update q (has_id id) (with_hash hash) w.users h)

  update_password-by_id :
      (i : String)
      → (Memory.update_password id hash m).1.by_id i ≡ user_of (find (has_id i) updated.users)
  unfolding Memory.update_password
  update_password-by_id i = elim (Option-cases (find (has_id i) w.users)) [
    | inl e ↦
        ground (arith, r.by_id i, r.by_id id, e, eq_iff id i, updated_find (has_id i) (λ x. refl))
    | inr (row, e) ↦ ground (
      arith,
      r.by_id i,
      r.by_id id,
      e,
      eq_iff id i,
      eq_iff row.id i,
      eq_iff row.id id,
      find_holds (has_id i) w.users row e,
      updated_find (has_id i) (λ x. refl),
    )
  ]

  update_password-one_id :
      (e : String) (row : Rows.User)
      → find (has_email e) updated.users ≡ some row
      → find (has_id row.id) updated.users ≡ some row
  update_password-one_id e row h = elim (Option-cases (find (has_email e) w.users)) [
    | inl g ↦ absurd (ground (arith, h, g, updated_find (has_email e) (λ x. refl)))
    | inr (x, g) ↦ ground (
      arith,
      h,
      g,
      r.one_id e x g,
      updated_find (has_email e) (λ x. refl),
      updated_find (has_id x.id) (λ x. refl),
    )
  ]

  pub update_password-Represents : Represents p (Memory.update_password id hash m).1 updated
  unfolding Memory.update_password
  update_password-Represents = record {
    by_email = λ e. ground (arith, r.by_email e, updated_find (has_email e) (λ x. refl));
    by_id = update_password-by_id;
    one_id = update_password-one_id;
    healthy = update_password_rows.2;
    fresh = λ k h. ground (
      arith,
      update_password_rows,
      r.fresh k (omega (arith, h, update_password_rows)),
      updated_find (has_id (p.uuid k)) (λ x. refl),
    );
  }
