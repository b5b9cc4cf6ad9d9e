-- ===== src/Domain/Audit.antt =====
-- internal/domain/audit/service_pg.go and model.go
use vergo.Prelude.{ℕ, String, Option, none, some, List, ◌||◌, if◌then◌else◌}
use vergo.Prelude.Int.{ℤ, pos, leb_ℤ, ltb_ℤ, to_int32}
use vergo.Prelude.Json.{Json, field?, end, obj}
use vergo.Db.{Act, Err, gets, ◌>>=◌}
use vergo.Db.Rows.{AuditLog}
use vergo.Platform.{Platform}
use vergo.Repo.Audit.{AuditFilter, insert_audit_log, list_audit_logs}

pub record Metadata : Type 0 where
  pub before : Option Json
  pub after : Option Json

abbrev pub no_metadata : Metadata
no_metadata = record { before = none; after = none }

-- The `Timestamp` of an event is not stored, so it is left out: the row has its own instant.
pub record Event : Type 0 where
  pub org_id : String
  pub actor_id : String
  pub action : String
  pub entity : String
  pub entity_id : String
  pub metadata : Metadata

-- json.Marshal of the metadata
abbrev pub marshal : Metadata → Json
marshal m = obj (field? "before" m.before (field? "after" m.after end))

abbrev pub event_row : Event → ℕ → AuditLog
event_row e now = record {
  org_id = e.org_id;
  actor_id = e.actor_id;
  action = e.action;
  entity = e.entity;
  entity_id = e.entity_id;
  created_at = now;
  metadata = some (marshal e.metadata);
}

unfoldable pub add_event : Event → Act Err (Unit {0})
unfolding insert_audit_log
add_event e = do now ← gets (λ w. w.now); insert_audit_log (event_row e now)

-- The events are returned as the rows: `Metadata` is what the JSON column holds.
unfoldable pub list : Platform → AuditFilter → ℤ → ℤ → Act Err (List AuditLog)
unfolding list_audit_logs
list p f limit offset =
    list_audit_logs p f
      (to_int32 (if leb_ℤ limit (pos 0) || ltb_ℤ (pos 100) limit then pos 20 else limit))
      (to_int32 (if ltb_ℤ offset (pos 0) then pos 0 else offset))
