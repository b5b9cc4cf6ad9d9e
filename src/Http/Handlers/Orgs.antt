-- ===== src/Http/Handlers/Orgs.antt =====
-- internal/http/handlers/orgs.go
pub mod Members
use vergo.Prelude.{String, Option, none, some}
use vergo.Prelude.Json.{Json, Fields, str, time, obj, field, end}
use vergo.Platform.{Platform}
use vergo.Db.{pure, ignore, or_fail, ◌>>=◌, ◌>>◌}
use vergo.Domain.Org
use vergo.Domain.Org.{Organization}
use vergo.Domain.Audit.{Metadata, Event, add_event}
use vergo.Http.Gin.{
  Context, Body, Handler, Params, param, reply, fails, fails_detail, bind, require, or_empty,
  user_id,
}

pub record CreateOrgIn : Type 0 where
  pub name : String

pub record MemberIn : Type 0 where
  pub user_id : String
  pub role : String

pub record RoleIn : Type 0 where
  pub role : String

abbrev pub before : Json → Metadata
before j = record { before = some j; after = none }

abbrev pub after : Json → Metadata
after j = record { before = none; after = some j }

abbrev org_json : Organization → Json
org_json o = obj (
    field "id" (str o.id) (
      field "name" (str o.name)
        (field "owner_user_id" (str o.owner_user) (field "created_at" (time o.created_at) end))))

abbrev member_json : String → String → Json
member_json user_id role = obj (field "role" (str role) (field "user_id" (str user_id) end))

abbrev pub event : String → String → String → String → String → Metadata → Event
event org_id actor_id action entity entity_id metadata = record {
  org_id = org_id;
  actor_id = actor_id;
  action = action;
  entity = entity;
  entity_id = entity_id;
  metadata = metadata;
}

module _ (p : Platform) where
  unfoldable pub create : Context → Option CreateOrgIn → Handler
  unfolding Org.create add_event user_id
  create c body = do
    uid ← require (reply 401 (Body.error "missing_user")) (user_id c)
    input ← bind body
    o ← or_fail (fails 500 "create_failed") (Org.create p input.name uid)
    ignore (add_event (event o.id uid "org.created" "org" o.id (after (org_json o))))
    pure (reply 201 (Body.organization o))

unfoldable pub get : Params → Handler
unfolding Org.get param
get ps = do
  o ← or_fail (fails 404 "not_found") (Org.get (param "id" ps))
  pure (reply 200 (Body.organization o))

unfoldable pub add_member : Context → Params → Option MemberIn → Handler
unfolding Org.add_member add_event user_id param
add_member c ps body = do
  let org_id = param "id" ps
  input ← bind body
  or_fail (fails 500 "add_failed") (Org.add_member org_id input.user_id input.role)
  ignore (
      add_event (
        event org_id (or_empty (user_id c)) "member.added" "membership" input.user_id
          (after (member_json input.user_id input.role))))
  pure (reply 204 Body.empty)

unfoldable pub update_member : Context → Params → Option RoleIn → Handler
unfolding Org.update_member add_event user_id param
update_member c ps body = do
  let org_id = param "id" ps
  let uid = param "userID" ps
  input ← bind body
  or_fail (fails_detail 404 "updated_failed") (Org.update_member org_id uid input.role)
  ignore (
      add_event (
        event org_id (or_empty (user_id c)) "member.updated" "membership" uid
          (after (member_json uid input.role))))
  pure (reply 204 Body.empty)

unfoldable pub remove_member : Context → Params → Handler
unfolding Org.remove_member add_event user_id param
remove_member c ps = do
  let org_id = param "id" ps
  let uid = param "userID" ps
  or_fail (fails_detail 404 "failed_remove_member") (Org.remove_member org_id uid)
  ignore (
      add_event (
        event org_id (or_empty (user_id c)) "member.removed" "membership" uid
          (before (obj (field "user_id" (str uid) end)))))
  pure (reply 204 Body.empty)

unfoldable pub delete : Context → Params → Handler
unfolding Org.delete add_event user_id param
delete c ps = do
  let org_id = param "id" ps
  or_fail (fails_detail 404 "failed_delete_organization") (Org.delete org_id)
  ignore (
      add_event (
        event org_id (or_empty (user_id c)) "org.deleted" "org" org_id
          (before (obj (field "org_id" (str org_id) end)))))
  pure (reply 204 Body.empty)
