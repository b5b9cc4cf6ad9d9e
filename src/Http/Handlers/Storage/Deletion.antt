-- ===== src/Http/Handlers/Storage/Deletion.antt =====
-- Which objects a caller can have deleted.
use vergo.Prelude.{
  String, ◌==◌, ◌++◌, ◌≡◌, true, none, some, [], ◌∷◌, arith, ap, sym, ◌∙◌, Option-cases, inl, inr,
  eq_refl, subst, if◌then◌else◌,
}
use vergo.Prelude.Text.{has_prefix}
use vergo.Table.{find}
use vergo.Table.Laws.{find-and_none, find-concat, count_pos}
use vergo.Platform.{Platform}
use vergo.Config.{Config}
use vergo.Db.{World}
use vergo.Db.Rows
use vergo.Repo.Files.{file_in_org}
use vergo.Domain.File.{File}
use vergo.Domain.File
use vergo.S3.{bucket_or}
use vergo.S3
use vergo.Http.Gin.{Context, Response, param, Body, reply, serve, org_id, user_id}
use vergo.Http.Handlers.Storage.{
  FileCreateIn, create_file, delete_file, object_key, register, policy_error,
}

policy_error-status :
    (cfg : Config) (input : FileCreateIn) (r : Response)
    → policy_error cfg input ≡ some r
    → r.status ≡ 400
unfolding policy_error
policy_error-status cfg input r h = ground arith

module _ (p : Platform) (cfg : Config) (c : Context) (oid uid : String) (input : FileCreateIn) where
  abbrev new_row : World → Rows.File
  new_row w = record {
    id = p.uuid w.drawn;
    org_id = oid;
    uploaded_by = uid;
    bucket = input.bucket;
    object_key = object_key oid uid input.key;
    size_bytes = input.size_bytes;
    content_type = if input.content_type == "" then none else some input.content_type;
    created_at = w.now;
    metadata = input.metadata;
  }

  -- What a registration that is answered with 201 went through.
  registered :
      (w : World) (f : File)
      → org_id c ≡ some oid
      → user_id c ≡ some uid
      → (serve (create_file p cfg c (some input)) w).0 ≡ reply 201 (Body.file f)
      → serve (create_file p cfg c (some input)) w ≡ serve (register p cfg oid uid input) w
  unfolding create_file
  registered w f o u h = elim (Option-cases (policy_error cfg input)) [
    | inl e ↦ ground arith
    | inr (r, e) ↦ absurd (ground (arith, policy_error-status cfg input r e))
  ]

  -- What it leaves.
  register_tables :
      (w : World) (f : File)
      → w.faults ≡ []
      → (serve (register p cfg oid uid input) w).0 ≡ reply 201 (Body.file f)
      → (f ≡ File.of_row (new_row w))
        × (find (λ x. x.id == p.uuid w.drawn) w.files ≡ none)
        × ((serve (register p cfg oid uid input) w).1.files ≡ w.files ++ new_row w ∷ [])
        × ((serve (register p cfg oid uid input) w).1.faults ≡ [])
        × ((serve (register p cfg oid uid input) w).1.deleted_objects ≡ w.deleted_objects)
  unfolding register File.create
  register_tables w f a h = (ground arith, ground arith, ground arith, ground arith, ground arith)

key_kept : (oid uid key : String) → has_prefix key "org/" ≡ true → object_key oid uid key ≡ key
unfolding object_key
key_kept oid uid key h = rw h

-- A deletion of a file that is there.
delete_file_lem :
    (cfg : Config) (c : Context) (oid id : String) (row : Rows.File) (w : World)
    → w.faults ≡ []
    → org_id c ≡ some oid
    → find (file_in_org oid id) w.files ≡ some row
    → ((serve (delete_file cfg c (("id", id) ∷ [])) w).0 ≡ reply 204 Body.empty)
      × ((serve (delete_file cfg c (("id", id) ∷ [])) w).1.deleted_objects
          ≡ (bucket_or cfg.s3_bucket row.bucket, row.object_key) ∷ w.deleted_objects)
unfolding delete_file param File.get File.delete S3.delete_object
delete_file_lem cfg c oid id row w f o e = (
  ground (arith, count_pos (file_in_org oid id) w.files row),
  ground (arith, count_pos (file_in_org oid id) w.files row),
)

module _ (p : Platform) (cfg : Config) (c : Context) (oid uid : String) (input : FileCreateIn) where
  -- With the statements answered, a caller with a user and an organization who registers a file whose
  -- key begins with org/ and deletes it again, has the program ask S3 to delete the object of exactly
  -- the bucket and the key that the caller named, whichever organization the key is of.
  pub delete_file-create_file :
      (w : World) (f : File)
      → org_id c ≡ some oid
      → user_id c ≡ some uid
      → has_prefix input.key "org/" ≡ true
      → w.faults ≡ []
      → (serve (create_file p cfg c (some input)) w).0 ≡ reply 201 (Body.file f)
      → let v = (serve (create_file p cfg c (some input)) w).1 in
        ((serve (delete_file cfg c (("id", f.id) ∷ [])) v).0 ≡ reply 204 Body.empty)
        × ((serve (delete_file cfg c (("id", f.id) ∷ [])) v).1.deleted_objects
            ≡ (bucket_or cfg.s3_bucket input.bucket, input.key) ∷ w.deleted_objects)
  delete_file-create_file w f o u k a h =
      let same = registered p cfg c oid uid input w f o u h in
      let (row, fresh, files, faults, deleted) =
        register_tables p cfg c oid uid input w f a (ap (λ x. x.0) (sym same) ∙ h) in
      let v = (serve (register p cfg oid uid input) w).1 in
      let found : find (file_in_org oid f.id) v.files ≡ some (new_row p cfg c oid uid input w) =
        ground (
          arith,
          row,
          files,
          eq_refl oid,
          eq_refl (p.uuid w.drawn),
          find-concat (file_in_org oid (p.uuid w.drawn)) w.files (new_row p cfg c oid uid input w)
              (find-and_none (λ x. x.id == p.uuid w.drawn) (λ x. x.org_id == oid) w.files fresh),
        ) in
      let (answer, gone) =
        delete_file_lem cfg c oid f.id (new_row p cfg c oid uid input w) v faults o found in
      subst
        (λ x.
          ((serve (delete_file cfg c (("id", f.id) ∷ [])) x.1).0 ≡ reply 204 Body.empty)
          × ((serve (delete_file cfg c (("id", f.id) ∷ [])) x.1).1.deleted_objects
              ≡ (bucket_or cfg.s3_bucket input.bucket, input.key) ∷ w.deleted_objects))
        (sym same) (answer, ground (arith, gone, deleted, k, key_kept oid uid input.key k))
