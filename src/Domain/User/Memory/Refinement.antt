-- ===== src/Domain/User/Memory/Refinement.antt =====
-- The users in memory do what the users in PostgreSQL do.
use vergo.Prelude.{
  ℕ, ap, ◌+◌, String, ◌≡◌, true, is_some, All, List, [], ◌∷◌, arith, inl, inr, Option-cases, ◌⊎◌,
  ◌∙◌, refl,
}
use vergo.Table.{find}
use vergo.Platform.{Platform}
use vergo.Db.{World, Err, Res, ok, err, fail_as}
use vergo.Domain.User.{User, of_row}
use vergo.Domain.User
use vergo.Domain.User.Memory.{Memory, new_memory}
use vergo.Domain.User.Memory
use vergo.Domain.User.Memory.Signups.{signup_same, named}
use vergo.Domain.User.Memory.Passwords.{update_password-Represents}
use vergo.Domain.User.Memory.Relation.{Represents, Represents-draws, Distinct, has_email}

-- The calls of the service.
pub data Call : Type 0 where
  signup login : String → String → Call
  get_by_id get_by_email : String → Call
  update_password : String → String → Call

-- What a caller is answered.
pub data Answer : Type 0 where
  user : Res Err User → Answer
  done : Res Err (Unit {0}) → Answer

-- What the memory and the table answer to a call: the same, but for two errors of the memory. A sign-up
-- with a taken e-mail is the raw violation in the table, and an update of the password of a user who is
-- not there is done in the table.
abbrev pub Agrees : Call × (Answer × Answer) → Type 0
Agrees (Call.signup email password, (a, b)) =
    (a ≡ b)
    ⊎ ((a ≡ Answer.user (err Err.email_in_use)) × (b ≡ Answer.user (err Err.unique_violation)))
Agrees (Call.update_password id hash, (a, b)) =
    (a ≡ b) ⊎ ((a ≡ Answer.done (err Err.user_not_found)) × (b ≡ Answer.done (ok tt)))
Agrees (call, (a, b)) = a ≡ b

-- An error that the memory names is that of a taken e-mail.
named_error :
    (r : Res Err User)
    → (fail_as named r ≡ r)
      ⊎ ((fail_as named r ≡ err Err.email_in_use) × (r ≡ err Err.unique_violation))
named_error (ok u) = inl refl
named_error (err Err.unique_violation) = inr (refl, refl)
named_error (err e) = inl refl

module _ (p : Platform) (m : Memory) (w : World) (r : Represents p m w) where
  login_same :
      (email password : String)
      → (Memory.login p email password m ≡ (User.login p email password w).0)
        × Represents p m (User.login p email password w).1
  unfolding Memory.login User.login
  login_same email password = (
    elim (Option-cases (find (has_email email) w.users)) [
      | inl e ↦ ground (arith, r.by_email email, r.healthy, e)
      | inr (row, e) ↦
          ground (arith, r.by_email email, r.by_id row.id, r.one_id email row e, r.healthy, e)
    ],
    Represents-draws p m w _ r (ground (arith, r.healthy)) (ground (arith, r.healthy))
        (ground (arith, r.healthy)),
  )

  get_by_id_same :
      (id : String)
      → (Memory.get_by_id id m ≡ (User.get_by_id id w).0) × Represents p m (User.get_by_id id w).1
  unfolding Memory.get_by_id User.get_by_id
  get_by_id_same id = (
    ground (arith, r.by_id id, r.healthy),
    Represents-draws p m w _ r (ground (arith, r.healthy)) (ground (arith, r.healthy))
        (ground (arith, r.healthy)),
  )

  get_by_email_same :
      (email : String)
      → (Memory.get_by_email email m ≡ (User.get_by_email email w).0)
        × Represents p m (User.get_by_email email w).1
  unfolding Memory.get_by_email User.get_by_email
  get_by_email_same email = (
    elim (Option-cases (find (has_email email) w.users)) [
      | inl e ↦ ground (arith, r.by_email email, r.healthy, e)
      | inr (row, e) ↦
          ground (arith, r.by_email email, r.by_id row.id, r.one_id email row e, r.healthy, e)
    ],
    Represents-draws p m w _ r (ground (arith, r.healthy)) (ground (arith, r.healthy))
        (ground (arith, r.healthy)),
  )

  update_password_same :
      (id hash : String)
      → ((Memory.update_password id hash m).0 ≡ (User.update_password id hash w).0)
        ⊎ (((Memory.update_password id hash m).0 ≡ err Err.user_not_found)
            × ((User.update_password id hash w).0 ≡ ok tt))
  unfolding Memory.update_password User.update_password
  update_password_same id hash = elim (Option-cases (m.by_id id)) [
    | inl e ↦ inr (ground (arith, e), ground (arith, r.healthy))
    | inr (u, e) ↦ inl (ground (arith, r.healthy, e))
  ]

-- One call of each service: the memory draws what the other draws.
module _ (p : Platform) where
  abbrev both : Call → Memory × World → (Answer × Answer) × (Memory × World)
  both (Call.signup email password) (m, w) =
      let (a, m') = Memory.signup p (w.drawn + 1) w.drawn email password m in
      let (b, w') = User.signup p email password w in ((Answer.user a, Answer.user b), (m', w'))
  both (Call.login email password) (m, w) =
      let (b, w') = User.login p email password w in
      ((Answer.user (Memory.login p email password m), Answer.user b), (m, w'))
  both (Call.get_by_id id) (m, w) =
      let (b, w') = User.get_by_id id w in
      ((Answer.user (Memory.get_by_id id m), Answer.user b), (m, w'))
  both (Call.get_by_email email) (m, w) =
      let (b, w') = User.get_by_email email w in
      ((Answer.user (Memory.get_by_email email m), Answer.user b), (m, w'))
  both (Call.update_password id hash) (m, w) =
      let (a, m') = Memory.update_password id hash m in
      let (b, w') = User.update_password id hash w in ((Answer.done a, Answer.done b), (m', w'))

  -- The calls with what they are answered.
  abbrev pub run : List Call → Memory × World → List (Call × (Answer × Answer))
  run [] s = []
  run (c ∷ cs) s = let (answers, next) = both c s in (c, answers) ∷ run cs next

  -- bcrypt makes a hash of every password of a sign-up.
  abbrev pub IsHashable : Call → Type 0
  IsHashable (Call.signup email password) = (n : ℕ) → is_some (p.bcrypt_generate n password) ≡ true
  IsHashable call = Unit

  both_same :
      (c : Call) (m : Memory) (w : World)
      → IsHashable c
      → Distinct p
      → Represents p m w
      → Agrees (c, (both c (m, w)).0) × Represents p (both c (m, w)).1.0 (both c (m, w)).1.1
  both_same (Call.signup email password) m w h d r =
      let (same, next) = signup_same p m w r email password (h w.drawn) d in
      (
        elim (named_error (User.signup p email password w).0) [
          | inl e ↦ inl (ap Answer.user (same ∙ e))
          | inr (e, k) ↦ inr (ap Answer.user (same ∙ e), ap Answer.user k)
        ],
        next,
      )
  both_same (Call.login email password) m w h d r =
      let (same, next) = login_same p m w r email password in (ap Answer.user same, next)
  both_same (Call.get_by_id id) m w h d r =
      let (same, next) = get_by_id_same p m w r id in (ap Answer.user same, next)
  both_same (Call.get_by_email email) m w h d r =
      let (same, next) = get_by_email_same p m w r email in (ap Answer.user same, next)
  both_same (Call.update_password id hash) m w h d r = (
    elim (update_password_same p m w r id hash) [
      | inl e ↦ inl (ap Answer.done e)
      | inr (e, k) ↦ inr (ap Answer.done e, ap Answer.done k)
    ],
    update_password-Represents p m w r id hash,
  )

  run_same :
      (calls : List Call) (m : Memory) (w : World)
      → All IsHashable calls
      → Distinct p
      → Represents p m w
      → All Agrees (run calls (m, w))
  run_same [] m w h d r = tt
  run_same (c ∷ cs) m w h d r =
      let (agree, next) = both_same c m w h.0 d r in
      (agree, run_same cs (both c (m, w)).1.0 (both c (m, w)).1.1 h.1 d next)

  -- From no users on, and with the same draws, both services give the same answer to each call of any
  -- run, but for two: a sign-up may fail as a taken e-mail in memory and as the violation of the
  -- unique column in the table, and an update of a password may fail in memory for a user who is not
  -- there and succeed in the table. The statements are answered, no identifier is drawn twice, and
  -- bcrypt makes a hash of each password.
  pub run_lem :
      (calls : List Call) (w : World)
      → All IsHashable calls
      → Distinct p
      → w.users ≡ []
      → w.faults ≡ []
      → All Agrees (run calls (new_memory, w))
  unfolding find
  run_lem calls w h d u f = run_same calls new_memory w h d (record {
    by_email = λ e. ground (arith, u);
    by_id = λ i. ground (arith, u);
    one_id = λ e row k. absurd (ground (arith, u, k));
    healthy = f;
    fresh = λ k b. ground (arith, u);
  })
