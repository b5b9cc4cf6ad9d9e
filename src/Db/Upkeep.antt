-- ===== src/Db/Upkeep.antt =====
-- Properties of the tables that an action keeps, whatever it returns: a rule for each way to build an
-- action, for `search`.
use vergo.Prelude.{Bool, true, false, List, [], ◌∷◌, ◌≡◌, refl, sym, subst, arith, if◌then◌else◌}
use vergo.Db.{
  World, Tables, Act, Err, Res, ok, err, pure, raise, lift, gets, draw, or_fail, attempt, ignore,
  query, transact, answer, query_lem, no_statement, restored, ◌>>=◌, ◌>>◌,
}
use vergo.Db.Cases.{bind_cases}

pub record Upholds {E A : Type 0} (P : Tables → Type 0) (m : Act E A) : Type 0 where
  pub at : (w : World) → P w.db → P (m w).1.db

module _ {P : Tables → Type 0} where
  pub bind-Upholds :
      {E A B : Type 0} (m : Act E A) (f : A → Act E B)
      → Upholds P m
      → ((a : A) → Upholds P (f a))
      → Upholds P (m >>= f)
  bind-Upholds m f km kf = record {
    at = λ w h.
        bind_cases (λ x. P x.1.db) m f w (λ e _. km.at w h) (λ a _. (kf a).at (m w).1 (km.at w h));
  }

  -- An action that leaves the tables alone.
  pub still-Upholds : {E A : Type 0} (m : Act E A) → ((w : World) → (m w).1.db ≡ w.db) → Upholds P m
  still-Upholds m same = record { at = λ w h. subst P (sym (same w)) h }

  pub pure-Upholds : {E A : Type 0} (a : A) → Upholds P (pure {E = E} a)
  pure-Upholds a = record { at = λ w h. h }

  pub raise-Upholds : {E A : Type 0} (e : E) → Upholds P (raise {A = A} e)
  raise-Upholds e = record { at = λ w h. h }

  pub lift-Upholds : {E A : Type 0} (r : Res E A) → Upholds P (lift r)
  lift-Upholds r = record { at = λ w h. h }

  pub gets-Upholds : {E A : Type 0} (f : World → A) → Upholds P (gets {E = E} f)
  gets-Upholds f = record { at = λ w h. h }

  pub draw-Upholds : {E : Type 0} → Upholds P (draw {E = E})
  draw-Upholds = record { at = λ w h. h }

  pub or_fail-Upholds :
      {E F A : Type 0} (f : E → F) (m : Act E A) → Upholds P m → Upholds P (or_fail f m)
  or_fail-Upholds f m k = record { at = k.at }

  pub attempt-Upholds : {E F A : Type 0} (m : Act E A) → Upholds P m → Upholds P (attempt {F = F} m)
  attempt-Upholds m k = record { at = k.at }

  pub ignore-Upholds : {E F A : Type 0} (m : Act E A) → Upholds P m → Upholds P (ignore {F = F} m)
  ignore-Upholds m k = record { at = k.at }

  pub if-Upholds :
      {E A : Type 0} (b : Bool) (m n : Act E A)
      → Upholds P m
      → Upholds P n
      → Upholds P (if b then m else n)
  if-Upholds true m n km kn = km
  if-Upholds false m n km kn = kn

-- What an answer leaves.
pub answer-Upheld :
    {A : Type 0} (P : Tables → Type 0) (r : Res Err (A × Tables)) (w : World)
    → ((a : A) (t : Tables) → r ≡ ok (a, t) → P t)
    → P w.db
    → P (answer r w).1.db
answer-Upheld P (ok (a, t)) w k h = k a t refl
answer-Upheld P (err e) w k h = h

module _ {A : Type 0} (q : World → Res Err (A × Tables)) (w : World) (fs : List Bool) where
  query-faulty : w.faults ≡ true ∷ fs → query q w ≡ (err Err.driver_error, record w { faults = fs })
  unfolding query
  query-faulty e = ground (arith, e)

  query-going :
      w.faults ≡ false ∷ fs
      → query q w ≡ answer (q (record w { faults = fs })) (record w { faults = fs })
  unfolding query
  query-going e = ground (arith, e)

module _ {A : Type 0} (P : Tables → Type 0) where
  -- A statement upholds what its own tables do, wherever the driver answers it.
  pub query-Upholds :
      (q : World → Res Err (A × Tables))
      → ((w : World) → P w.db → (a : A) (t : Tables) → q w ≡ ok (a, t) → P t)
      → Upholds P (query q)
  query-Upholds q k = record { at = λ w h. go w h w.faults refl }
    where
      answered : (w : World) → P w.db → P (answer (q w) w).1.db
      answered w h = answer-Upheld P (q w) w (λ a t e. k w h a t e) h

      go : (w : World) → P w.db → (fs : List Bool) → w.faults ≡ fs → P (query q w).1.db
      go w h [] e = subst (λ x. P x.1.db) (sym (query_lem q w e)) (answered w h)
      go w h (true ∷ fs) e = subst (λ x. P x.1.db) (sym (query-faulty q w fs e)) h
      go w h (false ∷ fs) e =
          subst (λ x. P x.1.db) (sym (query-going q w fs e)) (answered (record w { faults = fs }) h)

  -- A statement that only reads.
  pub rows-Upholds :
      (q : World → Res Err (A × Tables))
      → ((w : World) (a : A) (t : Tables) → q w ≡ ok (a, t) → t ≡ w.db)
      → Upholds P (query q)
  rows-Upholds q k = query-Upholds q (λ w h a t e. subst P (sym (k w a t e)) h)

-- What a statement leaves where the driver answers it.
abbrev pub Leaves : {A : Type 0} → (Tables → Type 0) → Res Err (A × Tables) → Type 0
Leaves P (ok (a, t)) = P t
Leaves P (err e) = Unit

module _ {A : Type 0} (P : Tables → Type 0) where
  Leaves-ok : (r : Res Err (A × Tables)) (a : A) (t : Tables) → Leaves P r → r ≡ ok (a, t) → P t
  Leaves-ok (ok (b, u)) a t h e = subst P (ground (arith, e)) h
  Leaves-ok (err x) a t h e = cc

  pub statement-Upholds :
      (q : World → Res Err (A × Tables))
      → ((w : World) → P w.db → Leaves P (q w))
      → Upholds P (query q)
  statement-Upholds q k = query-Upholds P q (λ w h a t e. Leaves-ok (q w) a t (k w h) e)

  pub if-Leaves :
      (b : Bool) (x y : Res Err (A × Tables))
      → (b ≡ true → Leaves P x)
      → (b ≡ false → Leaves P y)
      → Leaves P (if b then x else y)
  if-Leaves true x y h k = h refl
  if-Leaves false x y h k = k refl

module _ {A : Type 0} (P : Tables → Type 0) where
  restored-Upheld : (w : World) (x : Res Err A × World) → P w.db → P x.1.db → P (restored w x).1.db
  restored-Upheld w (ok a, v) h k = k
  restored-Upheld w (err e, v) h k = h

  pub transact-Upholds : (m : Act Err A) → Upholds P m → Upholds P (transact m)
  unfolding transact
  transact-Upholds m k = record { at = λ w h. restored-Upheld w _ h (body.at w h) }
    where
      none_at : Upholds P (query no_statement)
      none_at = rows-Upholds P no_statement (λ w a t e. ground (arith, e))

      body : Upholds P (query no_statement >> (m >>= λ a. query no_statement >> pure a))
      body = bind-Upholds (query no_statement) _ none_at λ _.
          bind-Upholds m _ k λ a. bind-Upholds (query no_statement) _ none_at λ _. pure-Upholds a

pub ruleset upkeep = (
  bind-Upholds, pure-Upholds, raise-Upholds, lift-Upholds, gets-Upholds, draw-Upholds,
  or_fail-Upholds, attempt-Upholds, ignore-Upholds, if-Upholds,
)

-- The rules of one statement.
pub ruleset statements = (statement-Upholds, if-Leaves)
