-- ===== src/Auth/RefreshStore/Revocation.antt =====
-- A revoked refresh token stays revoked, and is not valid.
use vergo.Prelude.{
  ℕ, String, ◌==◌, ◌≡◌, ◌≤◌, ◌≢◌, ◌↔◌, if◌then◌else◌, refl, Bool, true, false, Option, some, none,
  List, [], ◌∷◌, is_some, inl, inr, arith, Option-cases, eq_iff,
}
use vergo.Table.{find, update}
use vergo.Table.Laws.{find_holds, find-append_some, find-update}
use vergo.Platform.{Platform}
use vergo.Db.{World, ok}
use vergo.Db.Keeps.{Keeps}
use vergo.Db.Rows.{RefreshToken}
use vergo.Repo.Tokens.{revoked, unrevoked_id, unrevoked_user}
use vergo.Auth.RefreshStore.{ValidToken, save_refresh, is_valid, revoke, revoke_all_for_user}

abbrev pub has_id : String → RefreshToken → Bool
has_id id r = r.id == id

-- The row of a token, if it is revoked.
pub record IsRevoked (id : String) (row : RefreshToken) (rows : List RefreshToken) : Type 0 where
  pub found : find (has_id id) rows ≡ some row
  pub marked : is_some row.revoked_at ≡ true

module _ (id : String) (row : RefreshToken) where
  -- An update of tokens that are not revoked leaves it as it is.
  update-IsRevoked :
      (q : RefreshToken → Bool) (now : ℕ) (rows : List RefreshToken)
      → q row ≡ false
      → IsRevoked id row rows
      → IsRevoked id row (update q (revoked now) rows)
  update-IsRevoked q now rows miss h = record {
    found = ground (arith, h.found, find-update (has_id id) q (revoked now) rows (λ x. refl));
    marked = h.marked;
  }

  pub revoke-IsRevoked :
      (jti : String) → Keeps (λ w. IsRevoked id row w.refresh_tokens) (revoke jti)
  unfolding revoke
  revoke-IsRevoked jti = record {
    at = λ w h. ground (
      arith,
      h.marked,
      update-IsRevoked (unrevoked_id jti) w.now w.refresh_tokens (ground (arith, h.marked)) h,
    );
  }

  pub revoke_all-IsRevoked :
      (uid : String) → Keeps (λ w. IsRevoked id row w.refresh_tokens) (revoke_all_for_user uid)
  unfolding revoke_all_for_user
  revoke_all-IsRevoked uid = record {
    at = λ w h. ground (
      arith,
      h.marked,
      update-IsRevoked (unrevoked_user uid) w.now w.refresh_tokens (ground (arith, h.marked)) h,
    );
  }

  pub save-IsRevoked :
      (p : Platform) (jti uid token : String) (exp : ℕ) (from : Option String)
      → Keeps (λ w. IsRevoked id row w.refresh_tokens) (save_refresh p jti uid token exp from)
  unfolding save_refresh
  save-IsRevoked p jti uid token exp from = record {
    at = λ w h. ground (
      arith,
      h.found,
      h.marked,
      find-append_some (has_id id) w.refresh_tokens
          (record {
            id = jti;
            user_id = uid;
            token_hash = p.sha256_hex token;
            expires_at = exp;
            revoked_at = none;
            rotated_from = from;
            created_at = w.now;
          }
            ∷ [])
          row h.found,
    );
  }

-- After a revocation that the driver does not fail, the row that the token had is revoked.
pub revoke-marks :
    (id : String) (w : World) (row : RefreshToken)
    → w.faults ≡ []
    → find (has_id id) w.refresh_tokens ≡ some row
    → (row' : RefreshToken) × IsRevoked id row' (revoke id w).1.refresh_tokens
unfolding revoke
revoke-marks id w row f e =
    let same =
      find-update (has_id id) (unrevoked_id id) (revoked w.now) w.refresh_tokens (λ x. refl) in
    let hit = find_holds (has_id id) w.refresh_tokens row e in
    (
      if unrevoked_id id row then revoked w.now row else row,
      record { found = ground (arith, same, hit); marked = ground (arith, hit) },
    )

-- A revoked token is not valid, whatever its text and whatever the driver does.
pub is_valid_revoked :
    (p : Platform) (id token : String) (w : World) (row : RefreshToken) (v : ValidToken)
    → IsRevoked id row w.refresh_tokens
    → (is_valid p id token w).0 ≢ ok (some v)
unfolding is_valid
is_valid_revoked p id token w row v h e = ground (arith, h.found, h.marked)

pub refresh_tokens-is_valid :
    (p : Platform) (id token : String) (w : World)
    → (is_valid p id token w).1.refresh_tokens ≡ w.refresh_tokens
unfolding is_valid
refresh_tokens-is_valid p id token w = ground arith

-- With the statement answered, a token is valid exactly when it has a row that is not revoked, whose
-- expiry is not before now, and that holds the hash of the token; the user and the expiry are the
-- row's.
pub is_valid_iff :
    (p : Platform) (id token : String) (w : World) (v : ValidToken)
    → w.faults ≡ []
    → ((is_valid p id token w).0 ≡ ok (some v)) ↔ (
        (row : RefreshToken) × (find (has_id id) w.refresh_tokens ≡ some row)
        × (row.revoked_at ≡ none)
        × (w.now ≤ row.expires_at)
        × (row.token_hash ≡ p.sha256_hex token)
        × (v ≡ record { user_id = row.user_id; expires_at = row.expires_at }))
unfolding is_valid
is_valid_iff p id token w v f = (
  λ h. elim (Option-cases (find (has_id id) w.refresh_tokens)) [
    | inl e ↦ absurd (ground arith)
    | inr (row, e) ↦ (
      row,
      e,
      ground arith,
      ground arith,
      ground (arith, eq_iff row.token_hash (p.sha256_hex token)),
      ground arith,
    )
  ],
  λ (row, e, live, fresh, same, x). ground (arith, eq_iff row.token_hash (p.sha256_hex token)),
)
