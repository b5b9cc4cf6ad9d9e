-- ===== src/Repo/Projects.antt =====
-- internal/repo/projects.sql.go. The table has no foreign key.
use vergo.Prelude.{
  ℕ, String, ◌==◌, ◌&&◌, ◌++◌, ◌∷◌, [], List, Bool, Option, none, some, leb, is_some, if◌then◌else◌,
}
use vergo.Table.{find, select, update, delete, count, order_by}
use vergo.Db.{Act, Err, Res, World, Tables, ok, err, query, one}
use vergo.Db.Rows.{Project}

unfoldable pub list_projects : String → Act Err (List Project)
unfolding query
list_projects org_id = query λ w. ok (
  order_by (λ a b. leb a.created_at b.created_at) (select (λ r. r.org_id == org_id) w.projects),
  w.db,
)

unfoldable pub insert_project : String → String → String → Option String → String → Act Err Project
unfolding query
insert_project id org_id name description created_by = query λ w.
    let row : Project = record {
      id = id;
      org_id = org_id;
      name = name;
      description = description;
      created_by = created_by;
      created_at = w.now;
      updated_at = w.now;
    } in
    if is_some (find (λ r. r.id == id) w.projects)
    then err Err.unique_violation
    else ok (row, record w.db { projects = w.projects ++ row ∷ [] })

abbrev pub project_in_org : String → String → Project → Bool
project_in_org org_id id r = r.id == id && r.org_id == org_id

unfoldable pub get_project : String → String → Act Err Project
unfolding query
get_project org_id id = query λ w. one w (find (project_in_org org_id id) w.projects)

-- name = COALESCE(NULLIF($3, ''), name), description = $4, updated_at = NOW()
abbrev pub updated_project : String → Option String → ℕ → Project → Project
updated_project name description now r = record r {
  name = if name == "" then r.name else name;
  description = description;
  updated_at = now;
}

-- UPDATE ... RETURNING, of which the driver reads one row.
abbrev pub returning : List Project → Option Project → World → Res Err (Project × Tables)
returning rows none w = err Err.no_rows
returning rows (some r) w = ok (r, record w.db { projects = rows })

unfoldable pub update_project : String → String → String → Option String → Act Err Project
unfolding query
update_project org_id id name description = query λ w.
    let projects =
      update (project_in_org org_id id) (updated_project name description w.now) w.projects in
    returning projects (find (project_in_org org_id id) projects) w

unfoldable pub delete_project : String → String → Act Err ℕ
unfolding query
delete_project org_id id = query λ w. ok (
  count (project_in_org org_id id) w.projects,
  record w.db { projects = delete (project_in_org org_id id) w.projects },
)
