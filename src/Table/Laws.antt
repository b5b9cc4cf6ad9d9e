-- ===== src/Table/Laws.antt =====
-- Laws of the table operations, for any condition.
use vergo.Prelude.{
  ◌&&◌, ◌≡◌, refl, Bool, true, false, Option, none, some, List, [], ◌∷◌, ◌++◌, arith, All, ◌≤◌,
  Bool-cases, inl, inr, subst, if◌then◌else◌,
}
use vergo.Table.{find, select, update, delete, count}

abbrev pub map_some {ℓ} : {A : Type ℓ} → (A → A) → Option A → Option A
map_some f none = none
map_some f (some a) = some (f a)

module _ {ℓ} {A : Type ℓ} where
  -- A row that is found satisfies the condition.
  pub find_holds : (p : A → Bool) (xs : List A) (a : A) → find p xs ≡ some a → p a ≡ true
  unfolding find
  find_holds p [] a e = cc
  find_holds p (x ∷ xs) a e = ground (arith, find_holds p xs a)

  -- An update that does not touch the searched columns is seen in the row found.
  pub find-update :
      (p q : A → Bool) (f : A → A) (xs : List A)
      → ((x : A) → p (f x) ≡ p x)
      → find p (update q f xs) ≡ map_some (λ x. if q x then f x else x) (find p xs)
  unfolding find update
  find-update p q f [] h = refl
  find-update p q f (x ∷ xs) h = ground (arith, h x, find-update p q f xs h)

  -- After an update of all rows that match, no row that no longer matches is found.
  pub find-update-none :
      (p q : A → Bool) (f : A → A) (xs : List A)
      → ((x : A) → q x ≡ true → p (f x) ≡ false)
      → ((x : A) → p x ≡ true → q x ≡ true)
      → find p (update q f xs) ≡ none
  unfolding find update
  find-update-none p q f [] h k = refl
  find-update-none p q f (x ∷ xs) h k = ground (arith, h x, k x, find-update-none p q f xs h k)

  pub find-select-none :
      (p q : A → Bool) (xs : List A)
      → ((x : A) → p x ≡ true → q x ≡ false)
      → find p (select q xs) ≡ none
  unfolding find select
  find-select-none p q [] h = refl
  find-select-none p q (x ∷ xs) h = ground (arith, h x, find-select-none p q xs h)

  pub find-delete-none :
      (p q : A → Bool) (xs : List A)
      → ((x : A) → p x ≡ true → q x ≡ true)
      → find p (delete q xs) ≡ none
  unfolding delete
  find-delete-none p q xs h = find-select-none p _ xs (λ x e. ground (arith, h x))

  pub find-delete :
      (p q : A → Bool) (xs : List A)
      → ((x : A) → p x ≡ true → q x ≡ false)
      → find p (delete q xs) ≡ find p xs
  unfolding find delete select
  find-delete p q [] h = refl
  find-delete p q (x ∷ xs) h = ground (arith, h x, find-delete p q xs h)

  pub count_zero : (p : A → Bool) (xs : List A) → find p xs ≡ none → count p xs ≡ 0
  unfolding find count
  count_zero p [] h = refl
  count_zero p (x ∷ xs) h = ground (arith, count_zero p xs)

  pub count_pos : (p : A → Bool) (xs : List A) (a : A) → find p xs ≡ some a → 1 ≤ count p xs
  unfolding find count
  count_pos p [] a h = cc
  count_pos p (x ∷ xs) a h = ground (arith, count_pos p xs a)

  pub update-none : (p : A → Bool) (f : A → A) (xs : List A) → find p xs ≡ none → update p f xs ≡ xs
  unfolding find update
  update-none p f [] h = refl
  update-none p f (x ∷ xs) h = ground (arith, update-none p f xs)

  pub find-append :
      (p : A → Bool) (xs ys : List A)
      → find p (xs ++ ys) ≡ (elim (find p xs) [ none ↦ find p ys | some a ↦ some a ])
  unfolding find
  find-append p [] ys = refl
  find-append p (x ∷ xs) ys = ground (arith, find-append p xs ys)

  pub delete-none : (p : A → Bool) (xs : List A) → find p xs ≡ none → delete p xs ≡ xs
  unfolding find delete select
  delete-none p [] h = refl
  delete-none p (x ∷ xs) h = ground (arith, delete-none p xs)

  -- An insert behind rows that do not match.
  pub find-concat :
      (p : A → Bool) (xs : List A) (a : A)
      → find p xs ≡ none
      → p a ≡ true
      → find p (xs ++ a ∷ []) ≡ some a
  unfolding find
  find-concat p [] a h e = ground arith
  find-concat p (x ∷ xs) a h e = ground (arith, find-concat p xs a)

  pub find-and_none :
      (p q : A → Bool) (xs : List A) → find p xs ≡ none → find (λ x. p x && q x) xs ≡ none
  unfolding find
  find-and_none p q [] h = refl
  find-and_none p q (x ∷ xs) h = ground (arith, find-and_none p q xs)

  pub find-append_some :
      (p : A → Bool) (xs ys : List A) (a : A) → find p xs ≡ some a → find p (xs ++ ys) ≡ some a
  unfolding find
  find-append_some p [] ys a h = cc
  find-append_some p (x ∷ xs) ys a h = ground (arith, find-append_some p xs ys a)

  pub find-append_other :
      (p : A → Bool) (xs : List A) (a : A) → p a ≡ false → find p (xs ++ a ∷ []) ≡ find p xs
  unfolding find
  find-append_other p [] a e = ground arith
  find-append_other p (x ∷ xs) a e = ground (arith, find-append_other p xs a e)

module _ {ℓ} {A : Type ℓ} where
  -- The same for an update that reaches the matching rows of this table.
  pub find-update-none_here :
      (p q : A → Bool) (f : A → A) (xs : List A)
      → ((x : A) → q x ≡ true → p (f x) ≡ false)
      → All (λ x. p x ≡ true → q x ≡ true) xs
      → find p (update q f xs) ≡ none
  unfolding find update
  find-update-none_here p q f [] h k = refl
  find-update-none_here p q f (x ∷ xs) h k =
      ground (arith, h x, k.0, find-update-none_here p q f xs h k.1)

module _ {ℓ κ} {A : Type ℓ} (P : A → Type κ) where
  pub All-update :
      (p : A → Bool) (f : A → A) (xs : List A)
      → ((x : A) → p x ≡ true → P x → P (f x))
      → All P xs
      → All P (update p f xs)
  unfolding update
  All-update p f [] h k = tt
  All-update p f (x ∷ xs) h k = elim (Bool-cases (p x)) [
    | inl e ↦ rw e (h x e k.0, All-update p f xs h k.1)
    | inr e ↦ rw e (k.0, All-update p f xs h k.1)
  ]

  pub All-select : (p : A → Bool) (xs : List A) → All P xs → All P (select p xs)
  unfolding select
  All-select p [] k = tt
  All-select p (x ∷ xs) k = elim (Bool-cases (p x)) [
    | inl e ↦ rw e (k.0, All-select p xs k.1)
    | inr e ↦ rw e (All-select p xs k.1)
  ]

  pub All-find : (p : A → Bool) (xs : List A) (a : A) → find p xs ≡ some a → All P xs → P a
  unfolding find
  All-find p [] a e k = cc
  All-find p (x ∷ xs) a e k = elim (Bool-cases (p x)) [
    | inl y ↦ subst P (ground arith) k.0
    | inr n ↦ All-find p xs a (ground arith) k.1
  ]

module _ {ℓ κ μ} {A : Type ℓ} (P : A → Type κ) (Q : A → Type μ) (f : (x : A) → P x → Q x) where
  pub All-map : (xs : List A) → All P xs → All Q xs
  All-map [] k = tt
  All-map (x ∷ xs) k = (f x k.0, All-map xs k.1)

module _ {ℓ κ μ} {A : Type ℓ} (P : A → Type κ) (Q : A → Type μ) where
  pub All-both : (xs : List A) → All P xs → All Q xs → All (λ x. P x × Q x) xs
  All-both [] h k = tt
  All-both (x ∷ xs) h k = ((h.0, k.0), All-both xs h.1 k.1)

module _ {ℓ} {A : Type ℓ} (p : A → Bool) where
  pub select-append_other :
      (xs : List A) (a : A) → p a ≡ false → select p (xs ++ a ∷ []) ≡ select p xs
  unfolding select
  select-append_other [] a e = ground arith
  select-append_other (x ∷ xs) a e = ground (arith, select-append_other xs a e)

  -- What a selection does not see.
  pub select-update :
      (q : A → Bool) (f : A → A) (xs : List A)
      → ((x : A) → q x ≡ true → (p x ≡ false) × (p (f x) ≡ false))
      → select p (update q f xs) ≡ select p xs
  unfolding select update
  select-update q f [] h = refl
  select-update q f (x ∷ xs) h = ground (arith, h x, select-update q f xs h)

  pub select-delete :
      (q : A → Bool) (xs : List A)
      → ((x : A) → q x ≡ true → p x ≡ false)
      → select p (delete q xs) ≡ select p xs
  unfolding select delete
  select-delete q [] h = refl
  select-delete q (x ∷ xs) h = ground (arith, h x, select-delete q xs h)
