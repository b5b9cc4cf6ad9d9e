-- ===== src/Repo/TokenTrail.antt =====
-- A refresh token that was revoked keeps its row: no statement of the program changes or deletes it.
use vergo.Prelude.{ℕ, String, Bool, false, List, [], ◌∷◌, ◌++◌, ◌≡◌, refl, arith}
use vergo.Table.{update}
use vergo.Table.Laws.{find-append_some, find-update}
use vergo.Platform.{Platform}
use vergo.Db.Rows.{RefreshToken}
use vergo.Auth.RefreshStore.Revocation.{IsRevoked, has_id}
use vergo.Repo.Tokens.{revoked, unrevoked_id, unrevoked_user}
use vergo.Repo.Upkeep.{Laws}
use vergo.Repo.Trail.{Trail, trail-laws}

module _ (id : String) (row : RefreshToken) where
  append-IsRevoked :
      (ts : List RefreshToken) (t : RefreshToken)
      → IsRevoked id row ts
      → IsRevoked id row (ts ++ t ∷ [])
  append-IsRevoked ts t h = record {
    found = find-append_some (has_id id) ts (t ∷ []) row h.found;
    marked = h.marked;
  }

  update-IsRevoked :
      (ts : List RefreshToken) (q : RefreshToken → Bool) (now : ℕ)
      → q row ≡ false
      → IsRevoked id row ts
      → IsRevoked id row (update q (revoked now) ts)
  update-IsRevoked ts q now miss h = record {
    found = ground (arith, miss, h.found, find-update (has_id id) q (revoked now) ts (λ x. refl));
    marked = h.marked;
  }

  token-Trail : Trail (λ us ts ls rs. IsRevoked id row ts)
  token-Trail = record {
    append_user = λ us ts ls rs u h. h;
    set_password = λ us ts ls rs id hash h. h;
    append_token = λ us ts ls rs t. append-IsRevoked ts t;
    revoke_one = λ us ts ls rs jti now h.
        update-IsRevoked ts (unrevoked_id jti) now (ground (arith, h.marked)) h;
    revoke_all = λ us ts ls rs uid now h.
        update-IsRevoked ts (unrevoked_user uid) now (ground (arith, h.marked)) h;
    append_event = λ us ts ls rs l h. h;
    append_reset = λ us ts ls rs r fresh h. h;
    mark_used = λ us ts ls rs id now h. h;
  }

  pub token-laws : (p : Platform) → Laws p (λ t. IsRevoked id row t.refresh_tokens)
  token-laws = trail-laws _ token-Trail
