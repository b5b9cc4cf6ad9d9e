-- ===== src/Http/Handlers/Contexts.antt =====
-- internal/http/handlers/context.go
use vergo.Prelude.{String, Option, none, some}
use vergo.Db.{Err, Res, ok, err, pure, attempt, or_fail, ◌>>=◌, ◌>>◌}
use vergo.Domain.Org
use vergo.Domain.UserCtx.{active_org, set_active_org}
use vergo.Http.Gin.{
  Context, Body, Handler, reply, fails_detail, bind, require, user_id, map_reply, after_writing,
}

-- `if okM, r, _ := ...; okM`
abbrev role_or_empty : Res Err (Option String) → String
role_or_empty (ok (some role)) = role
role_or_empty (ok none) = ""
role_or_empty (err e) = ""

unfoldable pub get_of : String → Handler
unfolding active_org Org.is_member
get_of uid = do
  found ← or_fail (fails_detail 500 "get_failed") (active_org uid)
  org_id ← require (reply 204 Body.empty) found
  role ← attempt (Org.is_member org_id uid)
  pure (reply 200 (Body.active_context org_id (role_or_empty role)))

-- Without a user the handler answers 401 and goes on: it does not return.
unfoldable pub get : Context → Handler
unfolding get_of user_id
get c = elim (user_id c) [
  | some uid ↦ get_of uid
  | none ↦ map_reply (after_writing (reply 401 (Body.error "missing_user"))) (get_of "")
]

pub record SetContextIn : Type 0 where
  pub org_id : String

unfoldable pub set : Context → Option SetContextIn → Handler
unfolding Org.is_member set_active_org user_id
set c body = do
  uid ← require (reply 401 (Body.error "missing_user")) (user_id c)
  input ← bind body
  found ← or_fail (fails_detail 500 "checkfailed") (Org.is_member input.org_id uid)
  require (reply 403 (Body.error "not_a_member")) found
  or_fail (fails_detail 500 "set_failed") (set_active_org uid input.org_id)
  pure (reply 204 Body.empty)
