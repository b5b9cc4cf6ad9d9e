-- ===== src/Http/Middleware/Tenant.antt =====
-- internal/http/middleware/tenant.go, over the services that the router gives it.
pub mod Guard
use vergo.Prelude.{String, ◌==◌, Option, none, some, if◌then◌else◌}
use vergo.Prelude.Text.{trim_space}
use vergo.Db.{Act, Err, Res, ok, err, pure, raise, attempt, or_fail, ◌>>=◌}
use vergo.Domain.Org.{is_member}
use vergo.Domain.UserCtx.{active_org}
use vergo.Http.Gin.{Request, Context, Response, Body, reply, fails, require, user_id}

-- `if id, ok2, _ := ...; ok2`: an error counts as no context.
abbrev fallback : Res Err (Option String) → String
fallback (ok (some id)) = id
fallback (ok none) = ""
fallback (err e) = ""

-- The header, or else the active organization of the user.
unfoldable pub requested_org : Request → String → Act Response String
unfolding trim_space active_org
requested_org r uid =
    if trim_space r.x_org_id == ""
    then (do found ← attempt (active_org uid); pure (fallback found))
    else pure (trim_space r.x_org_id)

-- An empty role is not set.
abbrev with_role : String → Context → Context
with_role role c = if role == "" then c else record c { role = some role }

unfoldable pub check_member : String → String → Context → Act Response Context
unfolding is_member
check_member uid org_id c = do
  found ← or_fail (fails 500 "tenant_check_failed") (is_member org_id uid)
  role ← require (reply 403 (Body.error "not_a_member")) found
  pure (with_role role (record c { org_id = some org_id }))

unfoldable pub tenant : Request → Context → Act Response Context
tenant r c = do
  uid ← require (reply 401 (Body.error "missing_user")) (user_id c)
  org_id ← requested_org r uid
  if org_id == ""
      then raise (reply 400 (Body.error "missing_org_id"))
      else check_member uid org_id c
