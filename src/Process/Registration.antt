-- ===== src/Process/Registration.antt =====
-- What Register of internal/http/router/router.go opens: the database once more, and the client of S3 of
-- internal/storage/s3/client.go. The routes that it declares are modelled in Http/Router.
use vergo.Prelude.{String, ◌==◌, not, ◌&&◌, Option, none, some, if◌then◌else◌}
use vergo.Config.{Config}
use vergo.Process.{Proc, Failure, Pool, Answers, Call, Credentials, call, note, ◌>>◌}
use vergo.Process.Database.{open_database}

-- The keys of the configuration, where both are set; otherwise the library looks for its own.
abbrev pub static_credentials : Config → Option Credentials
static_credentials cfg =
    if not (cfg.s3_access_key_id == "") && not (cfg.s3_secret_access_key == "")
    then some (record {
      access_key_id = cfg.s3_access_key_id;
      secret_access_key = cfg.s3_secret_access_key;
      session_token = cfg.aws_session_token;
    })
    else none

abbrev pub base_endpoint : Config → Option String
base_endpoint cfg = if not (cfg.s3_endpoint == "") then some cfg.s3_endpoint else none

module _ (answer : Answers) where
  unfoldable pub new_from_config : Config → Proc Failure (Unit {0})
  new_from_config cfg = do
    call answer (Call.load_aws_config cfg.s3_region (static_credentials cfg))
    note (Call.new_s3_client cfg.s3_force_path_style (base_endpoint cfg))

  -- Its errors are those that Register panics with.
  unfoldable pub register : Config → Proc Failure (Unit {0})
  register cfg = do open_database answer Pool.of_router cfg; new_from_config cfg
