-- ===== src/Platform.antt =====
-- What the program calls and the repository does not hold: golang-jwt, google/uuid and PostgreSQL's
-- gen_random_uuid, crypto/rand, SHA-256, HMAC, bcrypt, the array encoding of lib/pq. Each is a
-- function of its inputs; what is random takes the number of the draw. `none` is an error return.
use vergo.Prelude.{ℕ, String, Bool, Option, List}
use vergo.Prelude.Int.{ℤ}
use vergo.Db.{Err}
use vergo.Db.Rows.{AuditLog}

-- Claims of internal/auth/jwt.go, with the registered claims that are set.
pub record Claims : Type 0 where
  pub user_id : String
  pub token_type : String
  pub id : String
  pub issued_at : ℕ
  pub expires_at : ℕ

pub record Platform : Type 0 where
  -- uuid.NewString()
  pub uuid : ℕ → String
  -- 32 bytes of crypto/rand, in hexadecimal
  pub rand_hex : ℕ → Option String
  -- hex.EncodeToString of sha256.Sum256
  pub sha256_hex : String → String
  -- hex.EncodeToString of HMAC-SHA256: the message, the key
  pub hmac_hex : String → String → String
  -- bcrypt.GenerateFromPassword: the draw of the salt, the password
  pub bcrypt_generate : ℕ → String → Option String
  -- bcrypt.CompareHashAndPassword: the hash, the password
  pub bcrypt_compare : String → String → Bool
  -- Token.SignedString: the claims, the secret
  pub sign_jwt : Claims → String → Option String
  -- jwt.NewNumericDate
  pub numeric_date : ℕ → ℕ
  -- jwt.ParseWithClaims: the instant, the token, the secret
  pub parse_jwt : ℕ → String → String → Option Claims
  -- the text that pq.Array sends for a list
  pub pq_array : List String → String
  -- http.NewRequest accepts the URL
  pub request_ok : String → Bool
  -- err.Error()
  pub error_text : Err → String
  -- customer.New of Stripe: the draw, the name, the organization in the metadata
  pub stripe_customer : ℕ → String → String → Option String
  -- session.New of Stripe: the customer, the two URLs, the organization, the price
  pub stripe_session : String → String → String → String → String → Option String
  -- PresignPutObject of S3: the bucket, the key, the content type, the seconds until it expires
  pub presign_put : String → String → String → ℕ → Option String
  -- PresignGetObject of S3: the bucket, the key, the seconds
  pub presign_get : String → String → ℕ → Option String
  -- PostgreSQL's order of two events of one instant, in the query with this limit and offset
  pub precedes : ℤ → ℤ → AuditLog → AuditLog → Bool
  -- time.Parse(time.RFC3339, s)
  pub parse_rfc3339 : String → Option ℕ
