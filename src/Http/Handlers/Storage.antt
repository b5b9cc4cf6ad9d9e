-- ===== src/Http/Handlers/Storage.antt =====
-- internal/http/handlers/storage.go. The handler of uploads reads the configuration anew, so each
-- takes it as an argument.
pub mod Deletion
use vergo.Prelude.{
  ℕ, ◌*◌, String, ◌==◌, ◌&&◌, Bool, true, false, not, Option, none, some, List, [], ◌∷◌, elem,
  length, if◌then◌else◌,
}
use vergo.Prelude.Int.{ℤ, pos, negsuc, leb_ℤ, ltb_ℤ, int64, add_len}
use vergo.Prelude.Json.{Json}
use vergo.Prelude.Text.{append, has_prefix}
use vergo.Prelude.Parse.{atoi, trim_left_of}
use vergo.Platform.{Platform}
use vergo.Config.{Config}
use vergo.Db.{Act, Err, Res, pure, raise, attempt, or_fail, ◌>>=◌, ◌>>◌}
use vergo.Domain.File
use vergo.S3
use vergo.Http.Gin.{
  Context, Body, Handler, Response, Params, param, reply, fails, fails_detail, bind, require,
  user_id, org_id,
}

pub record PresignPutIn : Type 0 where
  pub bucket : String
  pub key : String
  pub content_type : String
  pub expires_sec : ℤ

pub record PresignGetIn : Type 0 where
  pub bucket : String
  pub key : String
  pub expires_sec : ℤ

pub record FileCreateIn : Type 0 where
  pub bucket : String
  pub key : String
  pub size_bytes : Option ℤ
  pub content_type : String
  pub metadata : Option Json

abbrev missing_org : Response
missing_org = reply 400 (Body.error "missing_org_id")

-- len(types) > 0 && contentType != "" and no type is the content type
unfoldable pub type_refused : List String → String → Bool
type_refused [] content_type = false
type_refused (t ∷ ts) content_type = not (content_type == "") && not (elem content_type (t ∷ ts))

-- int64(mb) * 1024 * 1024, of a limit that is above 0
abbrev max_bytes : ℤ → ℤ
max_bytes (pos mb) = int64 (mb * 1024 * 1024)
max_bytes (negsuc n) = pos 0

unfoldable pub size_refused : ℤ → Option ℤ → Bool
size_refused max_mb none = false
size_refused max_mb (some size) = ltb_ℤ (pos 0) max_mb && ltb_ℤ (max_bytes max_mb) size

-- fmt.Sprintf("org/%s/users/%s/%s", ...), for a key that does not begin with org/
unfoldable pub object_key : String → String → String → String
unfolding has_prefix trim_left_of
object_key oid uid key =
    if has_prefix key "org/"
    then key
    else append "org/"
        (append oid (append "/users/" (append uid (append "/" (trim_left_of b'/' key)))))

-- The offset and the limit of the query, where they are in range.
abbrev limit_of : Option ℤ → ℤ
limit_of none = pos 20
limit_of (some n) = if ltb_ℤ (pos 0) n && leb_ℤ n (pos 100) then n else pos 20

abbrev offset_of : Option ℤ → ℤ
offset_of none = pos 0
offset_of (some n) = if leb_ℤ (pos 0) n then n else pos 0

unfoldable pub list_files : Context → String → String → Handler
unfolding org_id atoi File.list
list_files c limit offset = do
  oid ← require missing_org (org_id c)
  let from = offset_of (atoi offset)
  items ← or_fail (fails 500 "list_failed") (File.list oid (limit_of (atoi limit)) from)
  pure (reply 200 (Body.files_page items (add_len from (length items))))

unfoldable pub get_file : Context → Params → Handler
unfolding org_id param File.get
get_file c ps = do
  oid ← require missing_org (org_id c)
  f ← or_fail (fails 404 "not_found") (File.get oid (param "id" ps))
  pure (reply 200 (Body.file f))

module _ (cfg : Config) where
  -- The checks of the configured policy.
  unfoldable pub policy_error : FileCreateIn → Option Response
  unfolding type_refused size_refused
  policy_error input =
      if type_refused cfg.storage_allowed_types input.content_type
      then some (reply 400 (Body.error "unsupported_content_type"))
      else if size_refused cfg.storage_max_mb input.size_bytes
      then some (reply 400 (Body.too_large cfg.storage_max_mb))
      else none

  -- The object is deleted first, and the error of that is logged.
  unfoldable pub delete_file : Context → Params → Handler
  delete_file c ps = do
    oid ← require missing_org (org_id c)
    let id = param "id" ps
    f ← or_fail (fails 404 "not_found") (File.get oid id)
    attempt (S3.delete_object cfg.s3_bucket f.bucket f.object_key) >>= λ (_ : Res Err (Unit {0})).
        do or_fail (fails 500 "delete_failed") (File.delete oid id); pure (reply 204 Body.empty)

module _ (p : Platform) (cfg : Config) where
  unfoldable pub presign_put : Option PresignPutIn → Handler
  unfolding S3.presign_put
  presign_put body = do
    input ← bind body
    url ←
        or_fail (fails_detail 500 "presign_failed") (
          S3.presign_put p cfg.s3_bucket input.bucket input.key input.content_type
            input.expires_sec)
    pure (reply 200 (Body.presigned "PUT" url (some input.content_type)))

  unfoldable pub presign_get : Option PresignGetIn → Handler
  unfolding S3.presign_get
  presign_get body = do
    input ← bind body
    url ←
        or_fail (fails_detail 500 "presign_failed")
          (S3.presign_get p cfg.s3_bucket input.bucket input.key input.expires_sec)
    pure (reply 200 (Body.presigned "GET" url none))

  unfoldable pub register : String → String → FileCreateIn → Handler
  register oid uid input = do
    f ← or_fail (fails 500 "create_failed") (
        File.create p oid uid input.bucket (object_key oid uid input.key) input.size_bytes
          input.content_type input.metadata)
    pure (reply 201 (Body.file f))

  unfoldable pub create_file : Context → Option FileCreateIn → Handler
  create_file c body = do
    oid ← require missing_org (org_id c)
    uid ← require (reply 401 (Body.error "missing_user")) (user_id c)
    input ← bind body
    elim (policy_error cfg input) [ some refused ↦ raise refused | none ↦ register oid uid input ]
