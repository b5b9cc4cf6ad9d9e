-- ===== src/Table/Orders.antt =====
-- What ORDER BY leaves: the same rows, one after the other in the order.
use vergo.Prelude.{
  ℕ, zero, suc, ◌≡◌, ◌≤◌, refl, Bool, true, false, List, [], ◌∷◌, arith, All, take, length, ap,
  Bool-cases, inl, inr,
}
use vergo.Table.{select, count, insert_by, order_by}

module _ {ℓ} {A : Type ℓ} (p : A → Bool) where
  count-insert_by :
      (before : A → A → Bool) (a : A) (xs : List A)
      → count p (insert_by before a xs) ≡ count p (a ∷ xs)
  unfolding insert_by count
  count-insert_by before a [] = refl
  count-insert_by before a (x ∷ xs) = ground (arith, count-insert_by before a xs)

  -- An order moves rows only.
  pub count-order_by :
      (before : A → A → Bool) (xs : List A) → count p (order_by before xs) ≡ count p xs
  unfolding order_by count
  count-order_by before [] = refl
  count-order_by before (x ∷ xs) =
      ground (arith, count-insert_by before x (order_by before xs), count-order_by before xs)

  pub count-take : (n : ℕ) (xs : List A) → count p (take n xs) ≤ count p xs
  unfolding count
  count-take zero xs = omega arith
  count-take (suc n) [] = omega arith
  count-take (suc n) (x ∷ xs) = ground (arith, count-take n xs)

module _ {ℓ} {A : Type ℓ} where
  length-insert_by :
      (before : A → A → Bool) (a : A) (xs : List A)
      → length (insert_by before a xs) ≡ suc (length xs)
  unfolding insert_by
  length-insert_by before a [] = refl
  length-insert_by before a (x ∷ xs) = ground (arith, length-insert_by before a xs)

  pub length-order_by :
      (before : A → A → Bool) (xs : List A) → length (order_by before xs) ≡ length xs
  unfolding order_by
  length-order_by before [] = refl
  length-order_by before (x ∷ xs) =
      ground (arith, length-insert_by before x (order_by before xs), length-order_by before xs)

  pub length-select : (p : A → Bool) (xs : List A) → length (select p xs) ≤ length xs
  unfolding select
  length-select p [] = omega arith
  length-select p (x ∷ xs) = ground (arith, length-select p xs)

  pub take_all : (n : ℕ) (xs : List A) → length xs ≤ n → take n xs ≡ xs
  take_all zero [] h = refl
  take_all zero (x ∷ xs) h = absurd (omega (arith, h))
  take_all (suc n) [] h = refl
  take_all (suc n) (x ∷ xs) h = ap (λ l. x ∷ l) (take_all n xs (omega (arith, h)))

module _ {ℓ κ} {A : Type ℓ} (P : A → Type κ) where
  All-insert :
      (before : A → A → Bool) (a : A) (xs : List A) → P a → All P xs → All P (insert_by before a xs)
  unfolding insert_by
  All-insert before a [] h k = (h, tt)
  All-insert before a (x ∷ xs) h k = elim (Bool-cases (before a x)) [
    | inl e ↦ rw e (h, k)
    | inr e ↦ rw e (k.0, All-insert before a xs h k.1)
  ]

  pub All-order_by : (before : A → A → Bool) (xs : List A) → All P xs → All P (order_by before xs)
  unfolding order_by
  All-order_by before [] h = tt
  All-order_by before (x ∷ xs) h =
      All-insert before x (order_by before xs) h.0 (All-order_by before xs h.1)

  pub All-take : (n : ℕ) (xs : List A) → All P xs → All P (take n xs)
  All-take zero xs h = tt
  All-take (suc n) [] h = tt
  All-take (suc n) (x ∷ xs) h = (h.0, All-take n xs h.1)

module _ {ℓ} {A : Type ℓ} where
  -- Two orders that place a row alike insert it alike.
  pub insert_by_agreed :
      (before before' : A → A → Bool) (a : A) (xs : List A)
      → All (λ x. before a x ≡ before' a x) xs
      → insert_by before a xs ≡ insert_by before' a xs
  unfolding insert_by
  insert_by_agreed before before' a [] h = refl
  insert_by_agreed before before' a (x ∷ xs) h =
      ground (arith, h.0, insert_by_agreed before before' a xs h.1)

module _ {ℓ} {A : Type ℓ} (before : A → A → Bool) where
  abbrev pub IsOrdered : List A → Type 0
  IsOrdered [] = Unit
  IsOrdered (x ∷ xs) = All (λ y. before x y ≡ true) xs × IsOrdered xs

  module _ (total : (x y : A) → before x y ≡ false → before y x ≡ true)
      (trans : (x y z : A) → before x y ≡ true → before y z ≡ true → before x z ≡ true) where
    All-before :
        (x y : A) (xs : List A)
        → before x y ≡ true
        → All (λ z. before y z ≡ true) xs
        → All (λ z. before x z ≡ true) xs
    All-before x y [] h k = tt
    All-before x y (z ∷ xs) h k = (trans x y z h k.0, All-before x y xs h k.1)

    All-insert_by :
        (x a : A) (xs : List A)
        → before x a ≡ true
        → All (λ z. before x z ≡ true) xs
        → All (λ z. before x z ≡ true) (insert_by before a xs)
    unfolding insert_by
    All-insert_by x a [] h k = (h, tt)
    All-insert_by x a (y ∷ xs) h k = elim (Bool-cases (before a y)) [
      | inl e ↦ rw e (h, k)
      | inr e ↦ rw e (k.0, All-insert_by x a xs h k.1)
    ]

    insert_by-IsOrdered : (a : A) (xs : List A) → IsOrdered xs → IsOrdered (insert_by before a xs)
    unfolding insert_by
    insert_by-IsOrdered a [] h = (tt, tt)
    insert_by-IsOrdered a (y ∷ xs) h = elim (Bool-cases (before a y)) [
      | inl e ↦ rw e ((e, All-before a y xs e h.0), h)
      | inr e ↦ rw e (All-insert_by y a xs (total a y e) h.0, insert_by-IsOrdered a xs h.1)
    ]

    pub order_by-IsOrdered : (xs : List A) → IsOrdered (order_by before xs)
    unfolding order_by
    order_by-IsOrdered [] = tt
    order_by-IsOrdered (x ∷ xs) = insert_by-IsOrdered x (order_by before xs) (order_by-IsOrdered xs)

  pub take-IsOrdered : (n : ℕ) (xs : List A) → IsOrdered xs → IsOrdered (take n xs)
  take-IsOrdered zero xs h = tt
  take-IsOrdered (suc n) [] h = tt
  take-IsOrdered (suc n) (x ∷ xs) h = (All-take _ n xs h.0, take-IsOrdered n xs h.1)
