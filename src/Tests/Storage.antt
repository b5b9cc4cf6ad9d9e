-- ===== src/Tests/Storage.antt =====
-- Files on the sample world.
use vergo.Prelude.{◌≡◌, refl, none, some, false, [], ◌∷◌}
use vergo.Domain.File.{File, list}
use vergo.Domain.File
use vergo.Prelude.Text.{has_prefix}
use vergo.Db.{World}
use vergo.S3.{bucket_or}
use vergo.Http.Gin.{Context, Response, Body, reply, serve, org_id, user_id}
use vergo.Http.Handlers.Storage
use vergo.Http.Handlers.Storage.{FileCreateIn, create_file, object_key, policy_error, register}
use vergo.Http.Handlers.Storage.Deletion.{delete_file-create_file}
use vergo.Tests.Sample.{machine, platform, config, world}

abbrev f1 : File
f1 = record {
  id = "f1";
  org_id = "acme";
  uploaded_by = "ana";
  bucket = "b";
  object_key = "org/acme/x";
  size_bytes = none;
  content_type = "";
  created_at = 0;
  metadata = none;
}

abbrev bob_at_bolt : Context
bob_at_bolt = record {
  user_id = some "bob";
  org_id = some "bolt";
  role = some "member";
  api_key_auth = false;
}

-- A key of acme, where bob is no member.
abbrev theirs : FileCreateIn
theirs = record {
  bucket = "";
  key = "org/acme/x";
  size_bytes = none;
  content_type = "";
  metadata = none;
}

abbrev taken : File
taken = record {
  id = "id0";
  org_id = "bolt";
  uploaded_by = "bob";
  bucket = "";
  object_key = "org/acme/x";
  size_bytes = none;
  content_type = "";
  created_at = 100;
  metadata = none;
}

abbrev delete_taken : World → Response × World
delete_taken w = serve (Storage.delete_file config bob_at_bolt (("id", "id0") ∷ [])) w

delete_file-create_file_example :
    ((delete_taken (serve (create_file platform config bob_at_bolt (some theirs)) world).1).0
      ≡ reply 204 Body.empty)
    × ((delete_taken
          (serve (create_file platform config bob_at_bolt (some theirs)) world).1).1.deleted_objects
        ≡ (bucket_or config.s3_bucket "", "org/acme/x") ∷ world.deleted_objects)
unfolding create_file register File.create object_key has_prefix org_id user_id policy_error machine
delete_file-create_file_example =
    delete_file-create_file platform config bob_at_bolt "bolt" "bob" theirs world taken refl refl
      refl refl refl
