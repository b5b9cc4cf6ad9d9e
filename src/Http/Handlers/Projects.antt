-- ===== src/Http/Handlers/Projects.antt =====
-- internal/http/handlers/projects.go
pub mod Trail
use vergo.Prelude.{String, Option, none, some, List}
use vergo.Platform.{Platform}
use vergo.Db.{Err, Res, ok, err, pure, attempt, ignore, or_fail, ◌>>=◌, ◌>>◌}
use vergo.Domain.Project.{Project, zero_project, project_json}
use vergo.Domain.Project
use vergo.Domain.Audit.{Metadata, add_event}
use vergo.Http.Gin.{
  Context, Body, Handler, Params, Response, param, reply, fails, fails_detail, bind, require,
  or_empty, user_id, org_id,
}
use vergo.Http.Handlers.Orgs.{event, before, after}

pub record ProjectIn : Type 0 where
  pub name : String
  pub description : String

-- `old, _ := ...`: an error leaves Project{}.
abbrev pub or_zero : Res Err Project → Project
or_zero (ok r) = r
or_zero (err e) = zero_project

abbrev pub both : Project → Project → Metadata
both old new = record { before = some (project_json old); after = some (project_json new) }

abbrev missing_org : Response
missing_org = reply 400 (Body.error "missing_org_id")

unfoldable pub list : Context → Handler
unfolding org_id Project.list
list c = do
  oid ← require missing_org (org_id c)
  items ← or_fail (fails_detail 500 "list_failed") (Project.list oid)
  pure (reply 200 (Body.projects items))

module _ (p : Platform) where
  unfoldable pub create : Context → Option ProjectIn → Handler
  unfolding org_id user_id Project.create add_event
  create c body = do
    oid ← require missing_org (org_id c)
    uid ← require (reply 401 (Body.error "missing_user")) (user_id c)
    input ← bind body
    r ←
        or_fail (fails_detail 500 "create_fail")
          (Project.create p oid input.name input.description uid)
    ignore (add_event (event oid uid "project.created" "project" r.id (after (project_json r))))
    pure (reply 201 (Body.project r))

unfoldable pub get : Context → Params → Handler
unfolding org_id param Project.get
get c ps = do
  oid ← require missing_org (org_id c)
  r ← or_fail (fails 404 "not_found") (Project.get oid (param "id" ps))
  pure (reply 200 (Body.project r))

-- The state before is read first, even where the body is refused.
unfoldable pub update : Context → Params → Option ProjectIn → Handler
unfolding org_id user_id param Project.get Project.update add_event
update c ps body = do
  oid ← require missing_org (org_id c)
  let id = param "id" ps
  old ← attempt (Project.get oid id)
  input ← bind body
  r ← or_fail (fails_detail 500 "not_found") (Project.update oid id input.name input.description)
  ignore (
      add_event
        (event oid (or_empty (user_id c)) "project.updated" "project" id (both (or_zero old) r)))
  pure (reply 200 (Body.project r))

unfoldable pub delete : Context → Params → Handler
unfolding org_id user_id param Project.get Project.delete add_event
delete c ps = do
  oid ← require missing_org (org_id c)
  let id = param "id" ps
  old ← attempt (Project.get oid id)
  or_fail (fails 404 "not_found") (Project.delete oid id)
  ignore (
      add_event (
        event oid (or_empty (user_id c)) "project.deleted" "project" id
          (before (project_json (or_zero old)))))
  pure (reply 204 Body.empty)
