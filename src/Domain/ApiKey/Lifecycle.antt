-- ===== src/Domain/ApiKey/Lifecycle.antt =====
-- The life of an API key: created, validated, revoked.
use vergo.Prelude.{
  ℕ, String, Option, none, not, is_some, ◌==◌, ◌&&◌, ◌≤◌, subst, ◌≡◌, ◌↔◌, some, inl, inr, [],
  arith, Option-cases,
}
use vergo.Table.{find}
use vergo.Platform.{Platform}
use vergo.Db.{World, ok}
use vergo.Db.Rows
use vergo.Repo.Keys.{live_hash}
use vergo.Domain.ApiKey.{LookupResult, validate}

-- No expiry, or one that is not before now.
abbrev pub IsUnexpired : Option ℕ → ℕ → Type 0
IsUnexpired none now = Unit
IsUnexpired (some t) now = now ≤ t

module _ (p : Platform) (w : World) (f : w.faults ≡ []) where
  -- With the statements answered, a key is accepted exactly when the first row that has its hash and
  -- no time of revocation has no time of expiry, or one that is not before now; the organization that
  -- is returned is the row's.
  pub validate_iff :
      (key : String) (found : LookupResult)
      → ((validate p key w).0 ≡ ok (some found)) ↔ (
          (row : Rows.ApiKey) × (find
              (λ k. k.key_hash == p.sha256_hex key && not (is_some k.revoked_at))
              w.api_keys
            ≡ some row)
          × IsUnexpired row.expires_at w.now
          × (found ≡ record { key_id = row.id; org_id = row.org_id }))
  unfolding validate
  validate_iff key found = (
    λ h. elim (Option-cases (find (live_hash (p.sha256_hex key)) w.api_keys)) [
      | inl e ↦ absurd (ground arith)
      | inr (row, e) ↦ (
        row,
        e,
        elim (Option-cases row.expires_at) [ inl n ↦ rw n tt | inr (t, k) ↦ rw k (ground arith) ],
        ground arith,
      )
    ],
    λ (row, e, c, x). elim (Option-cases row.expires_at) [
      | inl n ↦ ground arith
      | inr (t, k) ↦ ground (arith, subst (λ o. IsUnexpired o w.now) k c)
    ],
  )
