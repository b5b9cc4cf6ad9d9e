-- ===== src/Db/Cases.antt =====
-- How a property of a sequence of actions follows from its parts.
use vergo.Prelude.{◌≡◌, refl}
use vergo.Db.{World, Res, Act, ok, err, continue, ◌>>=◌}

module _ {E A B : Type 0} where
  pub bind_cases {ℓ} :
      (Q : Res E B × World → Type ℓ) (m : Act E A) (f : A → Act E B) (w : World)
      → ((e : E) → (m w).0 ≡ err e → Q (err e, (m w).1))
      → ((a : A) → (m w).0 ≡ ok a → Q (f a (m w).1))
      → Q ((m >>= f) w)
  bind_cases Q m f w failed went = go (m w).0 refl
    where
      go : (r : Res E A) → (m w).0 ≡ r → Q (continue r f (m w).1)
      go (ok a) e = went a e
      go (err x) e = failed x e
