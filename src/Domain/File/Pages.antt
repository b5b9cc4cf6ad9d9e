-- ===== src/Domain/File/Pages.antt =====
-- The pages of files, and who reaches which file.
use vergo.Prelude.{
  ℕ, zero, suc, String, ◌==◌, ◌≡◌, ◌≤◌, refl, Bool, not, Option, none, some, List, [], ◌∷◌, map,
  take, drop, length, inl, inr, arith, eq_refl, Bool-cases, if◌then◌else◌, ◌⊎◌, ◌||◌, leb, ltb,
}
use vergo.Prelude.Int.{ℤ, pos, negsuc, to_int32}
use vergo.Prelude.Json.{Json}
use vergo.Table.{select, order_by}
use vergo.Table.Laws.{select-append_other, select-delete}
use vergo.Platform.{Platform}
use vergo.Db.{World, ok}
use vergo.Db.Rows
use vergo.Repo.Files.{file_in_org}
use vergo.Domain.File.{File, of_row, create, delete, list, page_limit, page_offset}

length-take : (n : ℕ) (xs : List Rows.File) → length (map of_row (take n xs)) ≤ n
length-take zero xs = omega arith
length-take (suc n) [] = omega arith
length-take (suc n) (x ∷ xs) = omega (arith, length-take n xs)

limit-clamped : (limit : ℤ) → (n : ℕ) × (to_int32 (page_limit limit) ≡ pos n) × (n ≤ 100)
limit-clamped (negsuc m) = (20, refl, omega arith)
limit-clamped (pos m) = elim (Bool-cases (leb m 0 || ltb 100 m)) [
  | inl e ↦ (20, ground arith, omega arith)
  | inr e ↦ (m, ground arith, ground arith)
]

ℤ-cases : (x : ℤ) → ((n : ℕ) × (x ≡ pos n)) ⊎ ((n : ℕ) × (x ≡ negsuc n))
ℤ-cases (pos n) = inl (n, refl)
ℤ-cases (negsuc n) = inr (n, refl)

abbrev sorted : String → World → List Rows.File
sorted org_id w =
    order_by (λ a b. leb b.created_at a.created_at) (select (λ f. f.org_id == org_id) w.files)

listed :
    (org_id : String) (limit offset : ℤ) (w : World) (items : List File) (n : ℕ)
    → to_int32 (page_limit limit) ≡ pos n
    → (list org_id limit offset w).0 ≡ ok items
    → (o : ℕ) × (items ≡ map of_row (take n (drop o (sorted org_id w))))
unfolding list
listed org_id limit offset w items n e h = elim (ℤ-cases (to_int32 (page_offset offset))) [
  | inl (o, g) ↦ (o, ground (arith, e, g, h))
  | inr (o, g) ↦ absurd (ground (arith, e, g, h))
]

-- Whatever the driver does and whatever page is asked for, it has at most 100 files.
list_bound :
    (org_id : String) (limit offset : ℤ) (w : World) (items : List File)
    → (list org_id limit offset w).0 ≡ ok items
    → length items ≤ 100
unfolding list
list_bound org_id limit offset w items h =
    let (n, e, small) = limit-clamped limit in
    let (o, same) = listed org_id limit offset w items n e h in
    ground (arith, same, small, length-take n (drop o (sorted org_id w)))

abbrev pub of_other : String → Rows.File → Bool
of_other org_id f = not (f.org_id == org_id)

-- Whatever the driver does, the creation and the deletion of a file for an organization leave the
-- files of all others as they were.
other_files :
    (p : Platform) (org_id uid bucket key content_type id : String) (size : Option ℤ)
    (metadata : Option Json) (w : World)
    → (select
          (of_other org_id)
          (create p org_id uid bucket key size content_type metadata w).1.files
        ≡ select (of_other org_id) w.files)
      × (select (of_other org_id) (delete org_id id w).1.files ≡ select (of_other org_id) w.files)
unfolding create delete
other_files p org_id uid bucket key content_type id size metadata w = (
  ground (
    arith,
    eq_refl org_id,
    select-append_other (of_other org_id) w.files (record {
      id = p.uuid w.drawn;
      org_id = org_id;
      uploaded_by = uid;
      bucket = bucket;
      object_key = key;
      size_bytes = size;
      content_type = if content_type == "" then none else some content_type;
      created_at = w.now;
      metadata = metadata;
    }),
  ),
  ground (
    arith,
    select-delete (of_other org_id) (file_in_org org_id id) w.files (λ x e. ground (arith, e)),
  ),
)
