-- ===== src/Http/Handlers/Me.antt =====
-- internal/http/handlers/me.go. The handler is made with an organization service.
use vergo.Prelude.{String, ◌==◌, Option, none, some, if◌then◌else◌}
use vergo.Db.{Act, Err, Res, ok, err, pure, attempt, or_fail, ◌>>=◌}
use vergo.Domain.Org
use vergo.Domain.User
use vergo.Http.Gin.{Request, Context, Response, Body, Handler, reply, fails, require, user_id}

-- `if ok, role, _ := ...; ok`: the organization and the role are added for a member.
abbrev membership_of : String → Res Err (Option String) → Option (String × String)
membership_of org_id (ok (some role)) = some (org_id, role)
membership_of org_id (ok none) = none
membership_of org_id (err e) = none

role_in : String → String → Act Response (Option (String × String))
unfolding Org.is_member
role_in org_id uid =
    if org_id == ""
    then pure none
    else (do found ← attempt (Org.is_member org_id uid); pure (membership_of org_id found))

unfoldable pub get : Request → Context → Handler
unfolding user_id User.get_by_id role_in
get r c = do
  uid ← require (reply 401 (Body.error "missing_user")) (user_id c)
  u ← or_fail (fails 401 "invalid_user") (User.get_by_id uid)
  membership ← role_in r.x_org_id uid
  pure (reply 200 (Body.user u.id u.email membership))
