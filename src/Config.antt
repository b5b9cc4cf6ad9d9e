-- ===== src/Config.antt =====
-- internal/pkg/config/config.go. The environment is a function from names to values, "" where a
-- variable is not set.
use vergo.Prelude.{
  String, ◌==◌, Bool, true, false, Option, none, some, List, [], ◌∷◌, if◌then◌else◌,
}
use vergo.Prelude.Int.{ℤ, pos}
use vergo.Prelude.Text.{trim_space}
use vergo.Prelude.Parse.{atoi, parse_bool, split}

pub record Config : Type 0 where
  pub app_port : ℤ
  pub app_env : String
  pub app_version : String
  pub jwt_access_ttl_minutes : ℤ
  pub jwt_refresh_ttl_days : ℤ
  pub jwt_access_secret : String
  pub jwt_refresh_secret : String
  pub db_host : String
  pub db_port : ℤ
  pub db_user : String
  pub db_pass : String
  pub db_name : String
  pub db_ssl : String
  pub s3_region : String
  pub s3_bucket : String
  pub s3_endpoint : String
  pub s3_force_path_style : Bool
  pub s3_access_key_id : String
  pub s3_secret_access_key : String
  pub aws_session_token : String
  pub storage_allowed_types : List String
  pub storage_max_mb : ℤ
  pub rate_limit_rps : ℤ
  pub rate_limit_burst : ℤ
  pub otlp_endpoint : String
  pub otlp_insecure : Bool
  pub metrics_port : ℤ
  pub stripe_secret_key : String
  pub stripe_webhook_secret : String

abbrev pub Environment : Type 0
Environment = String → String

abbrev or_default : {A : Type 0} → A → Option A → A
or_default def none = def
or_default def (some a) = a

unfoldable pub getenv : Environment → String → String → String
getenv env key def = if env key == "" then def else env key

unfoldable pub getint : Environment → String → ℤ → ℤ
unfolding atoi
getint env key def = if env key == "" then def else or_default def (atoi (env key))

unfoldable pub getbool : Environment → String → Bool → Bool
unfolding parse_bool
getbool env key def = if env key == "" then def else or_default def (parse_bool (env key))

-- The loop of splitCSV.
unfoldable pub trimmed : List String → List String
trimmed [] = []
trimmed (p ∷ ps) = let rest = trimmed ps in if trim_space p == "" then rest else trim_space p ∷ rest

unfoldable pub split_csv : String → List String
unfolding trimmed
split_csv s = if s == "" then [] else trimmed (split b',' s)

unfoldable pub load : Environment → Config
unfolding getenv getint getbool split_csv
load env = record {
  app_port = getint env "APP_PORT" (pos 8080);
  app_env = getenv env "APP_ENV" "dev";
  app_version = getenv env "APP_VERSION" "0.1.0";
  jwt_access_ttl_minutes = getint env "JWT_ACCESS_TTL_MINUTES" (pos 15);
  jwt_refresh_ttl_days = getint env "JWT_REFRESH_TTL_DAYS" (pos 14);
  jwt_access_secret = getenv env "JWT_ACCESS_SECRET" "dev-access";
  jwt_refresh_secret = getenv env "JWT_REFRESH_SECRET" "dev-refresh";
  db_host = getenv env "DB_HOST" "localhost";
  db_port = getint env "DB_PORT" (pos 5432);
  db_user = getenv env "DB_USER" "app";
  db_pass = getenv env "DB_PASSWORD" "app";
  db_name = getenv env "DB_NAME" "vergo";
  db_ssl = getenv env "DB_SSLMODE" "disable";
  s3_region = getenv env "S3_REGION" "us-east-1";
  s3_bucket = getenv env "S3_BUCKET" "";
  s3_endpoint = getenv env "S3_ENDPOINT" "";
  s3_force_path_style = getbool env "S3_FORCE_PATH_STYLE" false;
  s3_access_key_id = getenv env "S3_ACCESS_KEY_ID" "";
  s3_secret_access_key = getenv env "S3_SECRET_ACCESS_KEY" "";
  aws_session_token = getenv env "AWS_SESSION_TOKEN" "";
  storage_allowed_types = split_csv (getenv env "STORAGE_ALLOWED_TYPES" "");
  storage_max_mb = getint env "STORAGE_MAX_MB" (pos 25);
  rate_limit_rps = getint env "RATE_LIMIT_RPS" (pos 20);
  rate_limit_burst = getint env "RATE_LIMIT_BURST" (pos 40);
  otlp_endpoint = getenv env "OTEL_EXPORTER_OTLP_ENDPOINT" "";
  otlp_insecure = getbool env "OTEL_EXPORTER_OTLP_INSECURE" true;
  metrics_port = getint env "METRICS_PORT" (pos 0);
  stripe_secret_key = getenv env "STRIPE_SECRET_KEY" "";
  stripe_webhook_secret = getenv env "STRIPE_WEBHOOK_SECRET" "";
}
