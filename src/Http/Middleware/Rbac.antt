-- ===== src/Http/Middleware/Rbac.antt =====
-- internal/http/middleware/rbac.go
pub mod Order
use vergo.Prelude.{ℕ, String, ◌==◌, ltb, Option, none, some, if◌then◌else◌}
use vergo.Db.{Act, pure, raise, ◌>>=◌}
use vergo.Http.Gin.{Context, Response, Body, reply, require}

-- The map `roleOrder`: a missing key reads as 0.
unfoldable pub role_order : String → ℕ
role_order role =
    if role == "member" then 1 else if role == "admin" then 2 else if role == "owner" then 3 else 0

unfoldable pub require_role : String → Context → Act Response Context
require_role min_role c = do
  role ← require (reply 403 (Body.error "forbidden")) c.role
  if ltb (role_order role) (role_order min_role)
      then raise (reply 403 (Body.error "insufficient_role"))
      else pure c
