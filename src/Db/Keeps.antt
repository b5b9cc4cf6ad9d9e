-- ===== src/Db/Keeps.antt =====
-- Properties of the world that an action keeps, whatever it returns: one rule for each way to build
-- an action.
use vergo.Prelude.{◌≡◌, sym, subst, Bool, true, false, if◌then◌else◌}
use vergo.Db.{World, Act, or_fail, attempt, ignore, ◌>>=◌}
use vergo.Db.Cases.{bind_cases}

pub record Keeps {E A : Type 0} (P : World → Type 0) (m : Act E A) : Type 0 where
  pub at : (w : World) → P w → P (m w).1

module _ {E A : Type 0} (P : World → Type 0) where
  -- An action that only computes.
  pub Keeps-still : (m : Act E A) → ((w : World) → (m w).1 ≡ w) → Keeps P m
  Keeps-still m h = record { at = λ w k. subst P (sym (h w)) k }

  pub Keeps-if : (b : Bool) (m n : Act E A) → Keeps P m → Keeps P n → Keeps P (if b then m else n)
  Keeps-if true m n km kn = km
  Keeps-if false m n km kn = kn

-- A property of a part of the world that the action leaves alone.
pub Keeps-part :
    {E A T : Type 0} (part : World → T) (P : T → Type 0) (m : Act E A)
    → ((w : World) → part (m w).1 ≡ part w)
    → Keeps (λ w. P (part w)) m
Keeps-part part P m h = record { at = λ w k. subst P (sym (h w)) k }

module _ {E F A : Type 0} (P : World → Type 0) (m : Act E A) (k : Keeps P m) where
  pub Keeps-or_fail : (f : E → F) → Keeps P (or_fail f m)
  Keeps-or_fail f = record { at = k.at }

  pub Keeps-attempt : Keeps {E = F} P (attempt m)
  Keeps-attempt = record { at = k.at }

  pub Keeps-ignore : Keeps {E = F} P (ignore m)
  Keeps-ignore = record { at = k.at }

module _ {E A B : Type 0} (P : World → Type 0) where
  pub Keeps-bind :
      (m : Act E A) (f : A → Act E B) → Keeps P m → ((a : A) → Keeps P (f a)) → Keeps P (m >>= f)
  Keeps-bind m f km kf = record {
    at = λ w h.
        bind_cases (λ x. P x.1) m f w (λ e _. km.at w h) (λ a _. (kf a).at (m w).1 (km.at w h));
  }
