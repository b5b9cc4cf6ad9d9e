-- ===== src/Db.antt =====
-- What the program's functions run in. A `World` holds the tables of the database, the instant that
-- `time.Now()` and SQL's `now()` read (one for the whole of a call), how many random draws were
-- made, and what the environment decides: `faults` says of each coming statement whether the driver
-- fails it (none does past the end), `remote` how each coming HTTP call ends, with its status or by
-- a network error (past the end: an error). `outbox` is the HTTP requests that were sent, newest
-- first, `deleted_objects` the deletions that were asked of S3, as bucket and key. An `Act E A` is a Go function that returns `(A, error)`.
pub mod Rows
pub mod Cases
pub mod Keeps
pub mod Upkeep
use vergo.Prelude.{
  ℕ, String, Bool, Option, none, some, List, [], ◌∷◌, ◌+◌, ◌≡◌, refl, ◌⊎◌, inl, inr, arith,
  if◌then◌else◌,
}
use Rows.{
  User, Organization, Membership, Project, RefreshToken, PasswordResetToken, AuditLog, UserContext,
  ApiKey, WebhookEndpoint, WebhookDelivery, Subscription, File,
}

-- Go's error values: those of database/sql and the driver, the packages' own, and those of the
-- libraries.
pub data Err : Type 0 where
  no_rows driver_error unique_violation fk_violation : Err
  invalid_login email_in_use user_not_found org_not_found project_not_found file_not_found : Err
  reset_token_invalid rand_error bcrypt_error jwt_error request_error http_error : Err
  stripe_error s3_error : Err
  webhook_returned : ℕ → Err

pub record Tables : Type 0 where
  pub users : List User
  pub organizations : List Organization
  pub memberships : List Membership
  pub projects : List Project
  pub refresh_tokens : List RefreshToken
  pub password_reset_tokens : List PasswordResetToken
  pub audit_logs : List AuditLog
  pub user_contexts : List UserContext
  pub api_keys : List ApiKey
  pub webhook_endpoints : List WebhookEndpoint
  pub webhook_deliveries : List WebhookDelivery
  pub subscriptions : List Subscription
  pub files : List File

-- A webhook request: its URL, its event and signature headers and its body.
pub record WebhookRequest : Type 0 where
  pub url : String
  pub event : String
  pub signature : String
  pub body : String

pub record World : Type 0 where
  pub db : Tables
  pub open db use *
  pub now : ℕ
  pub drawn : ℕ
  pub faults : List Bool
  pub remote : List (Option ℕ)
  pub outbox : List WebhookRequest
  pub deleted_objects : List (String × String)

pub data Res (E A : Type 0) : Type 0 where
  ok : A → Res E A
  err : E → Res E A

pub Res-cases : {E A : Type 0} (r : Res E A) → ((a : A) × (r ≡ ok a)) ⊎ ((e : E) × (r ≡ err e))
Res-cases (ok a) = inl (a, refl)
Res-cases (err e) = inr (e, refl)

abbrev pub Act : Type 0 → Type 0 → Type 0
Act E A = World → Res E A × World

module _ {E A : Type 0} where
  abbrev pub pure : A → Act E A
  pure a w = (ok a, w)

  abbrev pub raise : E → Act E A
  raise e w = (err e, w)

  abbrev pub gets : (World → A) → Act E A
  gets f w = (ok (f w), w)

  abbrev pub lift : Res E A → Act E A
  lift r w = (r, w)

module _ {E A B : Type 0} where
  abbrev pub continue : Res E A → (A → Act E B) → Act E B
  continue (ok a) f w = f a w
  continue (err e) f w = (err e, w)

  infixl 5 ◌>>=◌ ◌>>◌
  abbrev pub ◌>>=◌ : Act E A → (A → Act E B) → Act E B
  ◌>>=◌ m f w = continue (m w).0 f (m w).1

  abbrev pub ◌>>◌ : Act E A → Act E B → Act E B
  m >> n = m >>= λ _. n

module _ {E F A : Type 0} where
  -- `if err != nil { return ..., f(err) }`
  abbrev pub fail_as : (E → F) → Res E A → Res F A
  fail_as f (ok a) = ok a
  fail_as f (err e) = err (f e)

  abbrev pub or_fail : (E → F) → Act E A → Act F A
  or_fail f m w = (fail_as f (m w).0, (m w).1)

  -- `a, err := m`, for code that goes on with both.
  abbrev pub attempt : Act E A → Act F (Res E A)
  attempt m w = (ok (m w).0, (m w).1)

  -- `_ = m`: the result and the error are dropped.
  abbrev pub ignore : Act E A → Act F (Unit {0})
  ignore m w = (ok tt, (m w).1)

-- A fresh number for a random draw.
abbrev pub draw : {E : Type 0} → Act E ℕ
draw w = (ok w.drawn, record w { drawn = w.drawn + 1 })

-- One statement: a failed one leaves the tables as they were.
module _ {A : Type 0} where
  abbrev pub answer : Res Err (A × Tables) → World → Res Err A × World
  answer (ok (a, t)) w = (ok a, record w { db = t })
  answer (err e) w = (err e, w)

  unfoldable pub query : (World → Res Err (A × Tables)) → Act Err A
  query q w = elim w.faults [
    | [] ↦ answer (q w) w
    | f ∷ fs ↦
        let w' = record w { faults = fs } in
        if f then (err Err.driver_error, w') else answer (q w') w'
  ]

  -- A statement that the driver does not fail.
  pub query_lem :
      (q : World → Res Err (A × Tables)) (w : World) → w.faults ≡ [] → query q w ≡ answer (q w) w
  unfolding query
  query_lem q w h = ground arith

abbrev pub no_statement : World → Res Err (Unit {0} × Tables)
no_statement w = ok (tt, w.db)

module _ {A : Type 0} where
  abbrev pub one : World → Option A → Res Err (A × Tables)
  one w none = err Err.no_rows
  one w (some a) = ok (a, w.db)

  -- BeginTx, the statements, Commit, with the deferred Rollback: an error, or a failed commit,
  -- restores the tables.
  abbrev pub restored : World → Res Err A × World → Res Err A × World
  restored w (ok a, w') = (ok a, w')
  restored w (err e, w') = (err e, record w' { db = w.db })

  unfoldable pub transact : Act Err A → Act Err A
  unfolding query
  transact m w =
      let body = query no_statement >> (m >>= λ a. query no_statement >> pure a) in
      restored w (body w)
