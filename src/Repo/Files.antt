-- ===== src/Repo/Files.antt =====
-- internal/repo/files.sql.go
use vergo.Prelude.{ℕ, String, ◌==◌, ◌&&◌, ◌++◌, ◌∷◌, [], List, Bool, leb, is_some, if◌then◌else◌}
use vergo.Prelude.Int.{ℤ}
use vergo.Table.{find, select, delete, count, order_by}
use vergo.Db.{Act, Err, ok, err, query, one}
use vergo.Db.Rows.{File}
use vergo.Repo.Orgs.{is_user, is_org}
use vergo.Repo.Audit.{paged}

unfoldable pub list_files : String → ℤ → ℤ → Act Err (List File)
unfolding query
list_files org_id limit offset = query λ w.
    paged limit offset
      (order_by (λ a b. leb b.created_at a.created_at) (select (λ f. f.org_id == org_id) w.files)) w

-- The primary key, the unique (bucket, object_key) and the two foreign keys.
unfoldable pub insert_file : File → Act Err File
unfolding query
insert_file row = query λ w.
    if is_some (find (λ f. f.id == row.id) w.files)
    then err Err.unique_violation
    else if is_some (find (λ f. f.bucket == row.bucket && f.object_key == row.object_key) w.files)
    then err Err.unique_violation
    else if is_org w.db row.org_id && is_user w.db row.uploaded_by
    then ok (row, record w.db { files = w.files ++ row ∷ [] })
    else err Err.fk_violation

abbrev pub file_in_org : String → String → File → Bool
file_in_org org_id id f = f.id == id && f.org_id == org_id

unfoldable pub get_file : String → String → Act Err File
unfolding query
get_file org_id id = query λ w. one w (find (file_in_org org_id id) w.files)

unfoldable pub delete_file : String → String → Act Err ℕ
unfolding query
delete_file org_id id = query λ w. ok (
  count (file_in_org org_id id) w.files,
  record w.db { files = delete (file_in_org org_id id) w.files },
)
