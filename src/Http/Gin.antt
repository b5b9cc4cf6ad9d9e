-- ===== src/Http/Gin.antt =====
-- A request as the middleware and the handlers read it, the keys of gin's context, and responses.
use vergo.Prelude.{ℕ, String, ◌==◌, Bool, Option, none, some, List, [], ◌∷◌, if◌then◌else◌}
use vergo.Db.{Act, Err, Res, World, ok, err}
use vergo.Domain.Org.{Organization}
use vergo.Domain.Project.{Project}
use vergo.Domain.File.{File}
use vergo.Prelude.Int.{ℤ}
use vergo.Domain.Webhook.{Endpoint}
use vergo.Domain.Billing.{Subscription, PlanLimits}
use vergo.Domain.ApiKey.{ApiKey, CreateResult}
use vergo.Db.Rows.{AuditLog}

-- A header that is missing is "".
pub record Request : Type 0 where
  pub authorization : String
  pub x_org_id : String
  pub client_ip : String

-- The keys `user_id`, `org_id`, `role` and `api_key_auth`.
pub record Context : Type 0 where
  pub user_id : Option String
  pub org_id : Option String
  pub role : Option String
  pub api_key_auth : Bool

abbrev pub no_keys : Context
no_keys = record { user_id = none; org_id = none; role = none; api_key_auth = Bool.false }

-- A page of audit events: items, page, page_size, next_offset.
pub record AuditPage : Type 0 where
  pub items : List AuditLog
  pub page : ℤ
  pub page_size : ℤ
  pub next_offset : ℤ

-- Bodies: gin.H{"error": e}, the same with a detail, gin.H{"error": err.Error()}, and what each handler returns.
pub data Body : Type 0 where
  empty : Body
  error : String → Body
  error_detail : String → Err → Body
  error_text : Err → Body
  then_also : Body → Body → Body
  message : String → Body
  user_tokens : String → String → String → String → Body
  tokens : String → String → Body
  organization : Organization → Body
  user : String → String → Option (String × String) → Body
  endpoint : Endpoint → Body
  endpoints : List Endpoint → Body
  status_text : String → Body
  file : File → Body
  files_page : List File → ℤ → Body
  presigned : String → String → Option String → Body
  too_large : ℤ → Body
  received : Body
  url : String → Body
  subscription : Subscription → Body
  usage : String → String → PlanLimits → Body
  plan_required : String → String → Body
  project : Project → Body
  projects : List Project → Body
  active_context : String → String → Body
  api_key : CreateResult → Body
  api_keys : List ApiKey → Body
  audit_page : AuditPage → Body
  health : ℕ → String → String → Body
  pong : Body

pub record Response : Type 0 where
  pub status : ℕ
  pub body : Body

abbrev pub reply : ℕ → Body → Response
reply status body = record { status = status; body = body }

abbrev pub fails : ℕ → String → Err → Response
fails status e _ = reply status (Body.error e)

abbrev pub fails_detail : ℕ → String → Err → Response
fails_detail status e cause = reply status (Body.error_detail e cause)

-- The parameters of the path, and c.Param: "" where there is none of that name.
abbrev pub Params : Type 0
Params = List (String × String)

unfoldable pub param : String → Params → String
param name [] = ""
param name ((k, v) ∷ ps) = if k == name then v else param name ps

-- A handler that wrote `first` and did not return: the status stays, the bodies follow one another.
abbrev pub after_writing : Response → Response → Response
after_writing first r = reply first.status (Body.then_also first.body r.body)

abbrev pub Handler : Type 0
Handler = Act Response Response

abbrev pub answered : Res Response Response → Response
answered (ok r) = r
answered (err r) = r

-- What the client gets, and the world that is left.
abbrev pub serve : Handler → World → Response × World
serve h w = (answered (h w).0, (h w).1)

abbrev pub map_reply : (Response → Response) → Handler → Handler
map_reply f h w = (ok (f (answered (h w).0)), (h w).1)

-- ShouldBindJSON: `none` where gin refuses the body.
abbrev pub bind : {A : Type 0} → Option A → Act Response A
bind none w = (err (reply 422 (Body.error "invalid_payload")), w)
bind (some a) w = (ok a, w)

abbrev non_empty : Option String → Option String
non_empty none = none
non_empty (some s) = if s == "" then none else some s

-- middleware.UserID and middleware.OrgID
unfoldable pub user_id : Context → Option String
user_id c = non_empty c.user_id

unfoldable pub org_id : Context → Option String
org_id c = non_empty c.org_id

abbrev pub require : {A : Type 0} → Response → Option A → Act Response A
require r none w = (err r, w)
require r (some a) w = (ok a, w)

-- `v, _ := ...`: a missing value is "".
abbrev pub or_empty : Option String → String
or_empty none = ""
or_empty (some s) = s
