-- ===== src/Domain/File.antt =====
-- internal/domain/file/service_pg.go and model.go
pub mod Pages
use vergo.Prelude.{ℕ, String, ◌==◌, ◌||◌, eqb, Option, none, some, List, map, if◌then◌else◌}
use vergo.Prelude.Int.{ℤ, pos, leb_ℤ, ltb_ℤ, to_int32}
use vergo.Prelude.Json.{Json, null, num, time, str, obj}
use vergo.Platform.{Platform}
use vergo.Db.{Act, Err, pure, raise, gets, draw, or_fail, ◌>>=◌}
use vergo.Db.Rows
use vergo.Repo.Files.{list_files, insert_file, get_file, delete_file}

pub record File : Type 0 where
  pub id : String
  pub org_id : String
  pub uploaded_by : String
  pub bucket : String
  pub object_key : String
  pub size_bytes : Option ℤ
  pub content_type : String
  pub created_at : ℕ
  pub metadata : Option Json

-- Metadata that does not unmarshal into a map is dropped.
abbrev only_object : Option Json → Option Json
only_object none = none
only_object (some (obj fs)) = some (obj fs)
only_object (some null) = none
only_object (some (num n)) = none
only_object (some (time t)) = none
only_object (some (str s)) = none

abbrev text_of : Option String → String
text_of none = ""
text_of (some s) = s

abbrev pub of_row : Rows.File → File
of_row r = record {
  id = r.id;
  org_id = r.org_id;
  uploaded_by = r.uploaded_by;
  bucket = r.bucket;
  object_key = r.object_key;
  size_bytes = r.size_bytes;
  content_type = text_of r.content_type;
  created_at = r.created_at;
  metadata = only_object r.metadata;
}

abbrev not_found : Err → Err
not_found Err.no_rows = Err.file_not_found
not_found e = e

abbrev pub page_limit : ℤ → ℤ
page_limit limit = if leb_ℤ limit (pos 0) || ltb_ℤ (pos 100) limit then pos 20 else limit

abbrev pub page_offset : ℤ → ℤ
page_offset offset = if ltb_ℤ offset (pos 0) then pos 0 else offset

unfoldable pub list : String → ℤ → ℤ → Act Err (List File)
unfolding list_files
list org_id limit offset = do
  rows ← list_files org_id (to_int32 (page_limit limit)) (to_int32 (page_offset offset))
  pure (map of_row rows)

module _ (p : Platform) where
  unfoldable pub create :
      String → String → String → String → Option ℤ → String → Option Json → Act Err File
  unfolding insert_file
  create org_id user_id bucket key size content_type metadata = do
    n ← draw
    now ← gets (λ w. w.now)
    r ← insert_file (record {
      id = p.uuid n;
      org_id = org_id;
      uploaded_by = user_id;
      bucket = bucket;
      object_key = key;
      size_bytes = size;
      content_type = if content_type == "" then none else some content_type;
      created_at = now;
      metadata = metadata;
    })
    pure (of_row r)

unfoldable pub get : String → String → Act Err File
unfolding get_file
get org_id id = do r ← or_fail not_found (get_file org_id id); pure (of_row r)

unfoldable pub delete : String → String → Act Err (Unit {0})
unfolding delete_file
delete org_id id = do
  n ← delete_file org_id id
  if eqb n 0 then raise Err.file_not_found else pure tt
