-- ===== src/Db/Rows.antt =====
-- The rows of the database, internal/repo/models.go: a nullable column is an `Option`, a timestamp is
-- a number of nanoseconds. JSON columns hold their value. `AuditLog` leaves out its serial number,
-- which no query reads.
use vergo.Prelude.{ℕ, String, Bool, Option, List}
use vergo.Prelude.Int.{ℤ}
use vergo.Prelude.Json.{Json}

pub record User : Type 0 where
  pub id : String
  pub email : String
  pub password_hash : String
  pub created_at : ℕ

pub record Organization : Type 0 where
  pub id : String
  pub name : String
  pub owner_user_id : String
  pub created_at : ℕ

pub record Membership : Type 0 where
  pub org_id : String
  pub user_id : String
  pub role : String

pub record Project : Type 0 where
  pub id : String
  pub org_id : String
  pub name : String
  pub description : Option String
  pub created_by : String
  pub created_at : ℕ
  pub updated_at : ℕ

pub record RefreshToken : Type 0 where
  pub id : String
  pub user_id : String
  pub token_hash : String
  pub expires_at : ℕ
  pub revoked_at : Option ℕ
  pub rotated_from : Option String
  pub created_at : ℕ

pub record PasswordResetToken : Type 0 where
  pub id : String
  pub user_id : String
  pub token_hash : String
  pub expires_at : ℕ
  pub used_at : Option ℕ
  pub created_at : ℕ

pub record AuditLog : Type 0 where
  pub org_id : String
  pub actor_id : String
  pub action : String
  pub entity : String
  pub entity_id : String
  pub created_at : ℕ
  pub metadata : Option Json

pub record UserContext : Type 0 where
  pub user_id : String
  pub org_id : String
  pub updated_at : ℕ

pub record ApiKey : Type 0 where
  pub id : String
  pub org_id : String
  pub name : String
  pub key_prefix : String
  pub key_hash : String
  pub created_by : String
  pub created_at : ℕ
  pub expires_at : Option ℕ
  pub last_used_at : Option ℕ
  pub revoked_at : Option ℕ

pub record WebhookEndpoint : Type 0 where
  pub id : String
  pub org_id : String
  pub url : String
  pub secret : String
  pub events : List String
  pub active : Bool
  pub created_at : ℕ
  pub updated_at : ℕ

pub record WebhookDelivery : Type 0 where
  pub id : String
  pub endpoint_id : String
  pub event : String
  pub payload : String
  pub status_code : Option ℕ
  pub response : Option String
  pub attempts : ℕ
  pub next_retry : Option ℕ
  pub delivered : Bool
  pub created_at : ℕ

pub record Subscription : Type 0 where
  pub id : String
  pub org_id : String
  pub stripe_customer_id : String
  pub stripe_subscription_id : Option String
  pub status : String
  pub plan : String
  pub current_period_end : Option ℕ
  pub created_at : ℕ
  pub updated_at : ℕ

pub record File : Type 0 where
  pub id : String
  pub org_id : String
  pub uploaded_by : String
  pub bucket : String
  pub object_key : String
  pub size_bytes : Option ℤ
  pub content_type : Option String
  pub created_at : ℕ
  pub metadata : Option Json
