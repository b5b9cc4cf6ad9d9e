-- ===== src/S3.antt =====
-- internal/storage/s3/client.go, with the calls of the SDK as parameters. A deletion is recorded;
-- whether S3 carries it out is not known to the program, which drops the error.
use vergo.Prelude.{ℕ, String, ◌==◌, ◌||◌, ◌∷◌, if◌then◌else◌}
use vergo.Prelude.Int.{ℤ, pos, negsuc, leb_ℤ, ltb_ℤ}
use vergo.Platform.{Platform}
use vergo.Db.{Act, Err, lift, ok}
use vergo.Auth.Jwt.{or_error}

abbrev pub bucket_or : String → String → String
bucket_or default bucket = if bucket == "" then default else bucket

-- The seconds until a URL expires: five minutes unless one to an hour is asked for.
unfoldable pub expiry : ℤ → ℕ
expiry (negsuc n) = 300
expiry (pos n) = if leb_ℤ (pos n) (pos 0) || ltb_ℤ (pos 3600) (pos n) then 300 else n

module _ (p : Platform) (default_bucket : String) where
  -- The URL; the only header is the content type.
  unfoldable pub presign_put : String → String → String → ℤ → Act Err String
  unfolding expiry
  presign_put bucket key content_type expires_seconds = lift (
      or_error Err.s3_error
        (p.presign_put (bucket_or default_bucket bucket) key content_type (expiry expires_seconds)))

  unfoldable pub presign_get : String → String → ℤ → Act Err String
  unfolding expiry
  presign_get bucket key expires_seconds = lift (
      or_error Err.s3_error
        (p.presign_get (bucket_or default_bucket bucket) key (expiry expires_seconds)))

module _ (default_bucket : String) where
  unfoldable pub delete_object : String → String → Act Err (Unit {0})
  delete_object bucket key w = (
    ok tt,
    record w { deleted_objects = (bucket_or default_bucket bucket, key) ∷ w.deleted_objects },
  )
