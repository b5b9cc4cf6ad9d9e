-- ===== src/Http/Handlers/Audit/Paging.antt =====
-- The pages of the audit log.
use vergo.Prelude.{
  ℕ, zero, suc, ◌+◌, ◌*◌, ◌-◌, ◌^◌, ◌≤◌, ◌<◌, String, ◌≡◌, refl, ap, sym, subst, ◌∙◌, Bool, List,
  [], ◌∷◌, ◌++◌, take, drop, length, some, arith, inl, inr, Bool-cases, leb, ltb, eqb, All, false,
}
use vergo.Prelude.Int.{ℤ, pos, negsuc, to_int32}
use vergo.Table.{select, order_by, insert_by}
use vergo.Table.Laws.{All-map}
use vergo.Table.Orders.{
  All-order_by, insert_by_agreed, IsOrdered, order_by-IsOrdered, take-IsOrdered,
}
use vergo.Platform.{Platform}
use vergo.Db.{World, ok}
use vergo.Db.Rows.{AuditLog}
use vergo.Repo.Audit.{AuditFilter, matches_filter, is_first}
use vergo.Domain.Audit
use vergo.Http.Gin.{Context, Body, reply, serve, org_id}
use vergo.Http.Handlers.Audit.{AuditQuery, list, parse_int, clamp_size, page_start, filter_of}

module _ {ℓ} {A : Type ℓ} where
  take_nil : (n : ℕ) → take {A = A} n [] ≡ []
  take_nil zero = refl
  take_nil (suc n) = refl

  take_add : (m n : ℕ) (xs : List A) → take m xs ++ take n (drop m xs) ≡ take (m + n) xs
  take_add zero n xs = let e : 0 + n ≡ n = omega arith in rw e refl
  take_add (suc m) n [] = take_nil n ∙ sym (take_nil (suc m + n))
  take_add (suc m) n (x ∷ xs) =
      let e : suc m + n ≡ suc (m + n) = omega arith in rw e (ap (λ l. x ∷ l) (take_add m n xs))

abbrev pub not_older : AuditLog → AuditLog → Bool
not_older a b = leb b.created_at a.created_at

-- The events of an organization that pass the filter, newest first.
abbrev pub newest : AuditFilter → World → List AuditLog
newest f w = order_by not_older (select (matches_filter f) w.audit_logs)

-- No two of the events are of one instant.
abbrev pub Apart : List AuditLog → Type 0
Apart [] = Unit
Apart (x ∷ xs) = All (λ y. eqb x.created_at y.created_at ≡ false) xs × Apart xs

-- Where the instants differ, every query has the events in the one order.
same_order :
    (p : Platform) (limit offset : ℤ) (xs : List AuditLog)
    → Apart xs
    → order_by (is_first p limit offset) xs ≡ order_by not_older xs
unfolding order_by
same_order p limit offset [] d = refl
same_order p limit offset (x ∷ xs) d =
    ap (insert_by (is_first p limit offset) x) (same_order p limit offset xs d.1)
    ∙ insert_by_agreed (is_first p limit offset) not_older x (order_by not_older xs)
        (All-map _ _ (λ y h. ground (arith, h)) _ (All-order_by _ not_older xs d.0))

size-clamped : (n : ℤ) → (s : ℕ) × (clamp_size n ≡ pos s) × (1 ≤ s) × (s ≤ 100)
size-clamped (negsuc m) = (20, refl, omega arith, omega arith)
size-clamped (pos m) = elim (Bool-cases (ltb m 1)) [
  | inl e ↦ (20, ground arith, omega arith, omega arith)
  | inr e ↦ elim (Bool-cases (ltb 100 m)) [
    | inl g ↦ (100, ground arith, omega arith, omega arith)
    | inr g ↦ (m, ground arith, ground arith, ground arith)
  ]
]

-- The start of a page, through the conversions to 64 and to 32 bits.
start_small :
    (k s : ℕ)
    → k * s < 2 ^ 31
    → (page_start (pos (suc k)) (pos s) ≡ pos (k * s)) × (to_int32 (pos (k * s)) ≡ pos (k * s))
start_small k s h = let e : suc k - 1 ≡ k = omega arith in rw e (ground arith, ground arith)

service_page :
    (p : Platform) (f : AuditFilter) (s o : ℕ) (w : World)
    → Apart (select (matches_filter f) w.audit_logs)
    → w.faults ≡ []
    → 1 ≤ s
    → s ≤ 100
    → to_int32 (pos o) ≡ pos o
    → (Audit.list p f (pos s) (pos o) w).0 ≡ ok (take s (drop o (newest f w)))
unfolding Audit.list
service_page p f s o w d a l u e =
    ground (arith, e, same_order p (pos s) (pos o) (select (matches_filter f) w.audit_logs) d)

module _ (p : Platform) (c : Context) (oid : String) (w : World) where
  page_of_log :
      (q : AuditQuery) (k s : ℕ)
      → w.faults ≡ []
      → org_id c ≡ some oid
      → Apart (select (matches_filter (filter_of p oid q)) w.audit_logs)
      → parse_int q.page (pos 1) ≡ pos (suc k)
      → clamp_size (parse_int q.page_size (pos 20)) ≡ pos s
      → 1 ≤ s
      → s ≤ 100
      → k * s < 2 ^ 31
      → (serve (list p c q) w).0
        ≡ reply 200 (
            Body.audit_page (record {
              items = take s (drop (k * s) (newest (filter_of p oid q) w));
              page = pos (suc k);
              page_size = pos s;
              next_offset =
                  pos (k * s + length (take s (drop (k * s) (newest (filter_of p oid q) w))));
            }))
  unfolding list
  page_of_log q k s a o d n m l u b =
      let (start, small) = start_small k s b in
      let events = service_page p (filter_of p oid q) s (k * s) w d a l u small in
      ground (arith, o, n, m, start, events)

  abbrev items_of : Body → List AuditLog
  items_of (Body.audit_page page) = page.items
  items_of other = []

  -- The items of the first n pages, one after the other, where `text` writes the numbers of the pages.
  abbrev pub pages : (ℕ → String) → AuditQuery → ℕ → List AuditLog
  pages text q zero = []
  pages text q (suc k) =
      pages text q k ++ items_of (serve (list p c (record q { page = text k })) w).0.body

  pages_taken :
      (q : AuditQuery) (text : ℕ → String) (n s : ℕ)
      → w.faults ≡ []
      → org_id c ≡ some oid
      → Apart (select (matches_filter (filter_of p oid q)) w.audit_logs)
      → ((k : ℕ) → k < n → parse_int (text k) (pos 1) ≡ pos (suc k))
      → clamp_size (parse_int q.page_size (pos 20)) ≡ pos s
      → 1 ≤ s
      → s ≤ 100
      → n * s ≤ 2 ^ 31
      → pages text q n ≡ take (n * s) (newest (filter_of p oid q) w)
  pages_taken q text zero s a o d m z l u b = let e : 0 * s ≡ 0 = grind arith in rw e refl
  pages_taken q text (suc n) s a o d m z l u b =
      let e : suc n * s ≡ n * s + s = grind arith in
      let ih =
        pages_taken q text n s a o d (λ k h. m k (omega (arith, h))) z l u (omega (arith, e, b)) in
      let page =
        page_of_log (record q { page = text n }) n s a o d (m n (omega arith)) z l u
          (omega (arith, e, b, l)) in
      rw (ih, page, e) (take_add (n * s) s (newest (filter_of p oid q) w))

  -- With the statements answered, and no two of the events that the query asks for of one instant, the
  -- first n pages of the audit log, one after the other, are the first n * s of these events, newest
  -- first, where s is the size of the pages that the query asks for, brought between 1 and 100: so
  -- none is left out and none is twice. The log does not change between the pages, `text` is how the
  -- caller writes the numbers of these pages, and n * s is at most 2^31.
  pub pages_lem :
      (q : AuditQuery) (text : ℕ → String) (n s : ℕ)
      → w.faults ≡ []
      → org_id c ≡ some oid
      → Apart (select (matches_filter (filter_of p oid q)) w.audit_logs)
      → ((k : ℕ) → k < n → parse_int (text k) (pos 1) ≡ pos (suc k))
      → clamp_size (parse_int q.page_size (pos 20)) ≡ pos s
      → n * s ≤ 2 ^ 31
      → (pages text q n ≡ take (n * s) (newest (filter_of p oid q) w))
        × IsOrdered not_older (pages text q n)
  pages_lem q text n s a o d m z b =
      let (t, e, l, u) = size-clamped (parse_int q.page_size (pos 20)) in
      let taken =
        pages_taken q text n s a o d m z (ground (arith, z, e, l)) (ground (arith, z, e, u)) b in
      (
        taken,
        subst (IsOrdered not_older) (sym taken) (
            take-IsOrdered not_older (n * s) (newest (filter_of p oid q) w) (
              order_by-IsOrdered not_older (λ x y h. ground (arith, h))
                (λ x y z h k. ground (arith, h, k))
                (select (matches_filter (filter_of p oid q)) w.audit_logs))),
      )
