-- ===== src/Http/Handlers/Projects/Trail.antt =====
-- What the project handlers write to the audit log.
use vergo.Prelude.{String, ◌≡◌, ◌++◌, ◌∷◌, [], some, arith, ◌==◌, Option-cases, inl, inr}
use vergo.Table.{find}
use vergo.Platform.{Platform}
use vergo.Db.{World}
use vergo.Domain.Project.{Project, project_json}
use vergo.Domain.Audit.{event_row}
use vergo.Http.Gin.{Context, Body, reply, serve, user_id, org_id}
use vergo.Http.Handlers.Orgs.{event, after}
use vergo.Http.Handlers.Projects.{ProjectIn, create}

module _ (p : Platform) (c : Context) (input : ProjectIn) (w : World) (f : w.faults ≡ []) where
  -- With the statements answered, a project that was created has one event in the audit log, of the
  -- caller and of the caller's organization, with the project as the state after.
  pub create-add_event :
      (oid uid : String) (r : Project)
      → org_id c ≡ some oid
      → user_id c ≡ some uid
      → (serve (create p c (some input)) w).0 ≡ reply 201 (Body.project r)
      → (serve (create p c (some input)) w).1.audit_logs
        ≡ w.audit_logs
          ++ event_row
              (event oid uid "project.created" "project" r.id (after (project_json r)))
              w.now
            ∷ []
  unfolding create
  create-add_event oid uid r o u h =
      elim (Option-cases (find (λ x. x.id == p.uuid w.drawn) w.projects)) [
        | inr (x, e) ↦ absurd (ground arith)
        | inl e ↦ ground arith
      ]
