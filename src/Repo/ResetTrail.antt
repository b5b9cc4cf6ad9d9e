-- ===== src/Repo/ResetTrail.antt =====
-- A password reset token that was used stays so: no statement of the program takes back its use, deletes
-- it or adds another one with its hash.
use vergo.Prelude.{
  ℕ, String, ◌==◌, true, false, none, List, [], ◌∷◌, ◌++◌, ◌≡◌, refl, arith, is_some, some,
  Bool-cases, inl, inr, subst, sym, eq_iff,
}
use vergo.Table.{find, update}
use vergo.Table.Laws.{find-append_other}
use vergo.Platform.{Platform}
use vergo.Db.Rows.{PasswordResetToken}
use vergo.Repo.Tokens.{unused_hash}
use vergo.Repo.Upkeep.{Laws}
use vergo.Repo.Trail.{Trail, trail-laws}

-- There is a token with this hash, and none that is unused.
pub record IsSpent (hash : String) (rs : List PasswordResetToken) : Type 0 where
  pub there : is_some (find (λ r. r.token_hash == hash) rs) ≡ true
  pub unused : find (unused_hash hash) rs ≡ none

module _ (hash : String) where
  there-append :
      (rs : List PasswordResetToken) (r : PasswordResetToken)
      → is_some (find (λ x. x.token_hash == hash) rs) ≡ true
      → is_some (find (λ x. x.token_hash == hash) (rs ++ r ∷ [])) ≡ true
  unfolding find
  there-append [] r h = ground arith
  there-append (x ∷ xs) r h = ground (arith, h, there-append xs r)

  pub there-mark :
      (rs : List PasswordResetToken) (id : String) (now : ℕ)
      → is_some (find (λ x. x.token_hash == hash) rs) ≡ true
      → is_some (
          find
            (λ x. x.token_hash == hash)
            (update (λ r. r.id == id) (λ r. record r { used_at = some now }) rs))
        ≡ true
  unfolding find update
  there-mark [] id now h = ground arith
  there-mark (x ∷ xs) id now h = ground (arith, h, there-mark xs id now)

  unused-mark :
      (rs : List PasswordResetToken) (id : String) (now : ℕ)
      → find (unused_hash hash) rs ≡ none
      → find (unused_hash hash) (update (λ r. r.id == id) (λ r. record r { used_at = some now }) rs)
        ≡ none
  unfolding find update
  unused-mark [] id now h = refl
  unused-mark (x ∷ xs) id now h = ground (arith, h, unused-mark xs id now)

  -- A row that was accepted behind the unique constraint has another hash.
  other_hash :
      (rs : List PasswordResetToken) (r : PasswordResetToken)
      → is_some (find (λ x. x.token_hash == r.token_hash) rs) ≡ false
      → is_some (find (λ x. x.token_hash == hash) rs) ≡ true
      → (r.token_hash == hash) ≡ false
  other_hash rs r fresh there = elim (Bool-cases (r.token_hash == hash)) [
    | inl e ↦ absurd (
        ground (
          arith,
          fresh,
          subst (λ k. is_some (find (λ x. x.token_hash == k) rs) ≡ true)
              (sym ((eq_iff r.token_hash hash).0 e)) there,
        ))
    | inr e ↦ e
  ]

  reset-Trail : Trail (λ us ts ls rs. IsSpent hash rs)
  reset-Trail = record {
    append_user = λ us ts ls rs u h. h;
    set_password = λ us ts ls rs id hash h. h;
    append_token = λ us ts ls rs t h. h;
    revoke_one = λ us ts ls rs jti now h. h;
    revoke_all = λ us ts ls rs uid now h. h;
    append_event = λ us ts ls rs l h. h;
    append_reset = λ us ts ls rs r fresh h. record {
      there = there-append rs r h.there;
      unused = ground (
        arith,
        other_hash rs r fresh h.there,
        h.unused,
        find-append_other (unused_hash hash) rs r,
      );
    };
    mark_used = λ us ts ls rs id now h. record {
      there = there-mark rs id now h.there;
      unused = unused-mark rs id now h.unused;
    };
  }

  pub reset-laws : (p : Platform) → Laws p (λ t. IsSpent hash t.password_reset_tokens)
  reset-laws = trail-laws _ reset-Trail
