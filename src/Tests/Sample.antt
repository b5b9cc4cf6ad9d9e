-- ===== src/Tests/Sample.antt =====
-- A platform of concrete functions, and worlds to run the program in.
use vergo.Prelude.{
  ℕ, String, ◌==◌, false, true, Option, none, some, List, [], ◌∷◌, leb, not, if◌then◌else◌,
}
use vergo.Prelude.Text.{append}
use vergo.Platform.{Platform, Claims}
use vergo.Config.{Config, load}
use vergo.Db.{World, Tables}
use vergo.Auth.Jwt.{new_access_token, new_refresh_token}
use vergo.Auth.RefreshStore.{save_refresh, is_valid, revoke, revoke_all_for_user}
use vergo.Auth.ResetStore.{create_reset_token, validate_and_consume}
use vergo.Domain.User
use vergo.Http.Gin.{Request, user_id}
use vergo.Table.{find, update, delete, count}
use vergo.Prelude.Text.{has_prefix}
use vergo.Http.Middleware.Auth.{auth, auth_with_api_keys}
use vergo.Http.Middleware.Tenant.{tenant, requested_org, check_member}
use vergo.Http.Middleware.Rbac.{require_role, role_order}
use vergo.Http.Handlers.Auth
use vergo.Http.Handlers.Orgs
use vergo.Http.Handlers.Contexts

-- The n-th identifier of a run.
abbrev pub uuid_of : ℕ → String
uuid_of n = if leb n 0 then "id0" else if leb n 1 then "id1" else if leb n 2 then "id2" else "id3"

abbrev first : List String → String
first [] = ""
first (x ∷ xs) = x

-- Two tokens, of one user.
abbrev pub claims_of : String → String → Option Claims
claims_of token secret =
    if token == "jwt-ana"
    then some (record {
      user_id = "ana";
      token_type = "access";
      id = "a1";
      issued_at = 0;
      expires_at = 900;
    })
    else if token == "rt-ana"
    then some (record {
      user_id = "ana";
      token_type = "refresh";
      id = "j1";
      issued_at = 0;
      expires_at = 900;
    })
    else none

abbrev pub platform : Platform
platform = record {
  uuid = uuid_of;
  rand_hex = λ n. some (append "r" (uuid_of n));
  sha256_hex = λ s. append "h" s;
  hmac_hex = λ m k. append k m;
  bcrypt_generate = λ n s. some (append "b" s);
  bcrypt_compare = λ h s. h == append "b" s;
  sign_jwt = λ c s. some (append c.token_type c.id);
  numeric_date = λ t. t;
  parse_jwt = λ now token secret. claims_of token secret;
  pq_array = λ l. append "{" (first l);
  request_ok = λ url. not (url == "");
  error_text = λ e. "failed";
  precedes = λ limit offset a b. true;
  presign_put = λ bucket key content_type seconds. some (append "https://s3/" key);
  presign_get = λ bucket key seconds. some (append "https://s3/" key);
  parse_rfc3339 = λ s. none;
  stripe_customer = λ n name org_id. some (append "cus_" org_id);
  stripe_session = λ customer success cancel org_id price. some (append "https://pay/" customer);
}

abbrev pub config : Config
config = load (λ name. "")

-- Users ana and bob; ana administers acme, bob owns bolt; ana has a live refresh token and an API
-- key of acme; acme pays for the plan pro and has a project and a file.
abbrev pub tables : Tables
tables = record {
  users =
      record { id = "ana"; email = "ana@x"; password_hash = "bpw"; created_at = 0 }
      ∷ record { id = "bob"; email = "bob@x"; password_hash = "bpw"; created_at = 0 }
      ∷ [];
  organizations =
      record { id = "acme"; name = "Acme"; owner_user_id = "ana"; created_at = 0 }
      ∷ record { id = "bolt"; name = "Bolt"; owner_user_id = "bob"; created_at = 0 }
      ∷ [];
  memberships =
      record { org_id = "acme"; user_id = "ana"; role = "admin" }
      ∷ record { org_id = "bolt"; user_id = "bob"; role = "owner" }
      ∷ [];
  projects =
      record {
        id = "g1";
        org_id = "acme";
        name = "site";
        description = none;
        created_by = "ana";
        created_at = 0;
        updated_at = 0;
      }
      ∷ [];
  refresh_tokens =
      record {
        id = "j1";
        user_id = "ana";
        token_hash = "hrt-ana";
        expires_at = 900;
        revoked_at = none;
        rotated_from = none;
        created_at = 0;
      }
      ∷ [];
  password_reset_tokens =
      record {
        id = "p1";
        user_id = "ana";
        token_hash = "hreset";
        expires_at = 500;
        used_at = none;
        created_at = 0;
      }
      ∷ [];
  audit_logs = [];
  user_contexts = record { user_id = "ana"; org_id = "acme"; updated_at = 0 } ∷ [];
  api_keys =
      record {
        id = "k1";
        org_id = "acme";
        name = "ci";
        key_prefix = "sk_";
        key_hash = "hsk_1";
        created_by = "ana";
        created_at = 0;
        expires_at = none;
        last_used_at = none;
        revoked_at = none;
      }
      ∷ [];
  webhook_endpoints =
      record {
        id = "e1";
        org_id = "acme";
        url = "https://x";
        secret = "s";
        events = "project.created" ∷ [];
        active = true;
        created_at = 0;
        updated_at = 0;
      }
      ∷ [];
  webhook_deliveries =
      record {
        id = "d1";
        endpoint_id = "e1";
        event = "project.created";
        payload = "{}";
        status_code = none;
        response = none;
        attempts = 0;
        next_retry = some 0;
        delivered = false;
        created_at = 0;
      }
      ∷ [];
  subscriptions =
      record {
        id = "s1";
        org_id = "acme";
        stripe_customer_id = "cus_1";
        stripe_subscription_id = some "sub_1";
        status = "active";
        plan = "pro";
        current_period_end = none;
        created_at = 0;
        updated_at = 0;
      }
      ∷ [];
  files =
      record {
        id = "f1";
        org_id = "acme";
        uploaded_by = "ana";
        bucket = "b";
        object_key = "org/acme/x";
        size_bytes = none;
        content_type = none;
        created_at = 0;
        metadata = none;
      }
      ∷ [];
}

abbrev pub world : World
world = record {
  db = tables;
  now = 100;
  drawn = 0;
  faults = [];
  remote = [];
  outbox = [];
  deleted_objects = [];
}

abbrev pub request : Request
request = record { authorization = "Bearer jwt-ana"; x_org_id = ""; client_ip = "1.2.3.4" }

-- To run a route in a test, one opens all of it.
unfoldable pub machine : Unit {0}
unfolding load find update delete count has_prefix auth auth_with_api_keys tenant user_id
    requested_org check_member require_role role_order Contexts.get Contexts.set Orgs.create
    Orgs.get Orgs.add_member Orgs.update_member Orgs.remove_member Orgs.delete Auth.logout_all
    Auth.issue Auth.signup Auth.login Auth.refresh_claims Auth.reissue Auth.rotate Auth.refresh
    Auth.logout Auth.forgot_password Auth.reset_password new_access_token new_refresh_token
    save_refresh is_valid revoke revoke_all_for_user create_reset_token validate_and_consume
    User.signup User.login User.get_by_email User.update_password
machine = tt

abbrev pub bearer : String → Request
bearer token = record {
  authorization = append "Bearer " token;
  x_org_id = "";
  client_ip = "1.2.3.4";
}
