-- ===== src/Repo/Audit.antt =====
-- internal/repo/audit_logs.sql.go
use vergo.Prelude.{
  ℕ, String, ◌==◌, ◌&&◌, ◌++◌, ◌∷◌, [], List, Bool, true, Option, none, some, leb, ltb, eqb, ◌||◌,
  take, drop,
}
use vergo.Prelude.Int.{ℤ, pos, negsuc}
use vergo.Platform.{Platform}
use vergo.Table.{select, order_by}
use vergo.Db.{Act, Err, Res, Tables, World, ok, err, query}
use vergo.Db.Rows.{AuditLog}

unfoldable pub insert_audit_log : AuditLog → Act Err (Unit {0})
unfolding query
insert_audit_log row = query λ w. ok (tt, record w.db { audit_logs = w.audit_logs ++ row ∷ [] })

pub record AuditFilter : Type 0 where
  pub org_id : String
  pub actor_id : Option String
  pub action : Option String
  pub entity : Option String
  pub since : Option ℕ
  pub until : Option ℕ

-- `filter IS NULL OR ...`
abbrev pub null_or : {A : Type 0} → (A → Bool) → Option A → Bool
null_or p none = true
null_or p (some a) = p a

abbrev pub matches_filter : AuditFilter → AuditLog → Bool
matches_filter f l =
    l.org_id == f.org_id
    && null_or (λ a. l.actor_id == a) f.actor_id
    && null_or (λ a. l.action == a) f.action
    && null_or (λ a. l.entity == a) f.entity
    && null_or (λ t. leb t l.created_at) f.since
    && null_or (λ t. leb l.created_at t) f.until

-- LIMIT and OFFSET: a negative one is an error of the database.
abbrev pub paged : {A : Type 0} → ℤ → ℤ → List A → World → Res Err (List A × Tables)
paged (pos limit) (pos offset) rows w = ok (take limit (drop offset rows), w.db)
paged (pos limit) (negsuc offset) rows w = err Err.driver_error
paged (negsuc limit) offset rows w = err Err.driver_error

-- ORDER BY created_at DESC: events of one instant come in any order, that may differ from query to query.
abbrev pub is_first : Platform → ℤ → ℤ → AuditLog → AuditLog → Bool
is_first p limit offset a b =
    ltb b.created_at a.created_at || eqb a.created_at b.created_at && p.precedes limit offset a b

unfoldable pub list_audit_logs : Platform → AuditFilter → ℤ → ℤ → Act Err (List AuditLog)
unfolding query
list_audit_logs p f limit offset = query λ w.
    paged limit offset (order_by (is_first p limit offset) (select (matches_filter f) w.audit_logs))
      w
