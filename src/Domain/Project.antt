-- ===== src/Domain/Project.antt =====
-- internal/domain/project/service.go and model.go
pub mod Isolation
use vergo.Prelude.{ℕ, String, ◌==◌, eqb, Option, none, some, List, map, if◌then◌else◌}
use vergo.Prelude.Json.{Json, str, time, obj, field, field?, end}
use vergo.Platform.{Platform}
use vergo.Db.{Act, Err, pure, raise, draw, or_fail, ◌>>=◌}
use vergo.Db.Rows
use vergo.Repo.Projects.{list_projects, insert_project, get_project, update_project, delete_project}

pub record Project : Type 0 where
  pub id : String
  pub org_id : String
  pub name : String
  pub description : String
  pub created_by : String
  pub created_at : ℕ
  pub updated_at : ℕ

-- Project{}: the zero time is 0.
abbrev pub zero_project : Project
zero_project = record {
  id = "";
  org_id = "";
  name = "";
  description = "";
  created_by = "";
  created_at = 0;
  updated_at = 0;
}

abbrev text_of : Option String → String
text_of none = ""
text_of (some s) = s

abbrev pub of_row : Rows.Project → Project
of_row r = record {
  id = r.id;
  org_id = r.org_id;
  name = r.name;
  description = text_of r.description;
  created_by = r.created_by;
  created_at = r.created_at;
  updated_at = r.updated_at;
}

-- sql.NullString{String: s, Valid: s != ""}
abbrev pub null_if_empty : String → Option String
null_if_empty s = if s == "" then none else some s

-- The key of UpdatedAt is the one that the struct's tag names.
abbrev pub project_json : Project → Json
project_json r = obj (
    field "id" (str r.id) (
      field "org_id" (str r.org_id) (
        field "name" (str r.name) (
          field? "description" (if r.description == "" then none else some (str r.description)) (
            field "created_by" (str r.created_by) (
              field "created_at" (time r.created_at)
                (field "updated_by" (time r.updated_at) end)))))))

abbrev not_found : Err → Err
not_found Err.no_rows = Err.project_not_found
not_found e = e

unfoldable pub list : String → Act Err (List Project)
unfolding list_projects
list org_id = do rows ← list_projects org_id; pure (map of_row rows)

module _ (p : Platform) where
  unfoldable pub create : String → String → String → String → Act Err Project
  unfolding insert_project
  create org_id name description user_id = do
    n ← draw
    r ← insert_project (p.uuid n) org_id name (null_if_empty description) user_id
    pure (of_row r)

unfoldable pub get : String → String → Act Err Project
unfolding get_project
get org_id id = do r ← or_fail not_found (get_project org_id id); pure (of_row r)

unfoldable pub update : String → String → String → String → Act Err Project
unfolding update_project
update org_id id name description = do
  r ← or_fail not_found (update_project org_id id name (null_if_empty description))
  pure (of_row r)

unfoldable pub delete : String → String → Act Err (Unit {0})
unfolding delete_project
delete org_id id = do
  n ← delete_project org_id id
  if eqb n 0 then raise Err.project_not_found else pure tt
