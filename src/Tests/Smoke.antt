-- ===== src/Tests/Smoke.antt =====
-- Runs of the handlers on the sample world.
use vergo.Prelude.{◌≡◌, refl, some}
use vergo.Http.Gin.{serve, reply, Body}
use vergo.Http.Router
use vergo.Http.Handlers.Auth.{refresh}
use vergo.Tests.Sample.{machine, platform, config, world, request}

refresh_ok :
    (serve (refresh platform config (some (record { refresh_token = "rt-ana" }))) world).0
    ≡ reply 200 (Body.tokens "accessid0" "refreshid1")
unfolding refresh machine
refresh_ok = refl

add_member_ok :
    (serve
      (Router.add_member platform config request "bolt"
        (some (record { user_id = "ana"; role = "owner" })))
      world).0
    ≡ reply 204 Body.empty
unfolding Router.add_member machine
add_member_ok = refl

remove_noop :
    (serve (Router.remove_member platform config request "acme" "ana") world).1.db.memberships
    ≡ world.db.memberships
unfolding Router.remove_member machine
remove_noop = refl
