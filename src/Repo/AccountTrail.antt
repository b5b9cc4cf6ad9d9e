-- ===== src/Repo/AccountTrail.antt =====
-- An account is never lost: no statement of the program deletes a user or changes an e-mail.
use vergo.Prelude.{
  String, ◌==◌, Bool, true, false, List, [], ◌∷◌, ◌++◌, ◌≡◌, ap, ◌∙◌, some, refl, if◌then◌else◌,
}
use vergo.Table.{find, update}
use vergo.Table.Laws.{find-append_some, find-update, map_some}
use vergo.Platform.{Platform}
use vergo.Db.Rows.{User}
use vergo.Repo.Upkeep.{Laws}
use vergo.Repo.Trail.{Trail, trail-laws}

module _ (id email : String) where
  -- There is a user with this identifier, who has this e-mail.
  abbrev pub HasAccount : List User → Type 0
  HasAccount us = (u : User) × (find (λ v. v.id == id) us ≡ some u) × (u.email ≡ email)

  append-HasAccount : (us : List User) (u : User) → HasAccount us → HasAccount (us ++ u ∷ [])
  append-HasAccount us u (v, e, h) = (v, find-append_some (λ v. v.id == id) us (u ∷ []) v e, h)

  update-HasAccount :
      (us : List User) (q : User → Bool) (hash : String)
      → HasAccount us
      → HasAccount (update q (λ u. record u { password_hash = hash }) us)
  update-HasAccount us q hash (v, e, h) = (
    if q v then record v { password_hash = hash } else v,
    find-update (λ v. v.id == id) q _ us (λ x. refl) ∙ ap (map_some _) e,
    kept (q v),
  )
    where
      kept : (b : Bool) → (if b then record v { password_hash = hash } else v).email ≡ email
      kept true = h
      kept false = h

  account-Trail : Trail (λ us ts ls rs. HasAccount us)
  account-Trail = record {
    append_user = λ us ts ls rs u. append-HasAccount us u;
    set_password = λ us ts ls rs id hash. update-HasAccount us (λ u. u.id == id) hash;
    append_token = λ us ts ls rs t h. h;
    revoke_one = λ us ts ls rs jti now h. h;
    revoke_all = λ us ts ls rs uid now h. h;
    append_event = λ us ts ls rs l h. h;
    append_reset = λ us ts ls rs r fresh h. h;
    mark_used = λ us ts ls rs id now h. h;
  }

  pub account-laws : (p : Platform) → Laws p (λ t. HasAccount t.users)
  account-laws = trail-laws _ account-Trail
