-- ===== src/Repo/AuditTrail.antt =====
-- The audit log is never rewritten: no statement of the program changes or deletes an event.
use vergo.Prelude.{List, [], ◌∷◌, ◌++◌, ◌≡◌, ap, ◌∙◌}
use mathlib.Core.List.{append_assoc}
use vergo.Platform.{Platform}
use vergo.Db.Rows.{AuditLog}
use vergo.Repo.Upkeep.{Laws}
use vergo.Repo.Trail.{Trail, trail-laws}

-- The log begins with these events.
abbrev BeginsWith : List AuditLog → List AuditLog → Type 0
BeginsWith events log = (later : List AuditLog) × (log ≡ events ++ later)

append-BeginsWith :
    (events log : List AuditLog) (row : AuditLog)
    → BeginsWith events log
    → BeginsWith events (log ++ row ∷ [])
append-BeginsWith events log row (later, e) =
    (later ++ row ∷ [], ap (λ l. l ++ row ∷ []) e ∙ append_assoc events later (row ∷ []))

log-Trail : (events : List AuditLog) → Trail (λ us ts ls rs. BeginsWith events ls)
log-Trail events = record {
  append_user = λ us ts ls rs u h. h;
  set_password = λ us ts ls rs id hash h. h;
  append_token = λ us ts ls rs t h. h;
  revoke_one = λ us ts ls rs jti now h. h;
  revoke_all = λ us ts ls rs uid now h. h;
  append_event = λ us ts ls rs l. append-BeginsWith events ls l;
  append_reset = λ us ts ls rs r fresh h. h;
  mark_used = λ us ts ls rs id now h. h;
}

pub log-laws :
    (events : List AuditLog) (p : Platform) → Laws p (λ t. BeginsWith events t.audit_logs)
log-laws events = trail-laws _ (log-Trail events)
