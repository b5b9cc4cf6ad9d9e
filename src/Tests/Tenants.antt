-- ===== src/Tests/Tenants.antt =====
-- A request of a user who is no member of an organization.
use vergo.Prelude.{Bool, ◌≡◌, refl, some, none}
use vergo.Http.Gin.{Context, serve}
use vergo.Http.Tenancy.Within.{within}
use vergo.Http.Tenancy.Routes.{TenantCall, route}
use vergo.Http.Tenancy.Isolation.{isolation}
use vergo.Tests.Sample.{machine, platform, config, world, request}

abbrev ana : Context
ana = record { user_id = some "ana"; org_id = none; role = none; api_key_auth = Bool.false }

-- ana deletes a project in acme; bolt, where she is no member, stays as it is.
isolation_example :
    within "bolt"
      (serve (route platform config (TenantCall.delete_project "g1") request) world).1.db
    ≡ within "bolt" world.db
unfolding machine
isolation_example =
    isolation platform config (TenantCall.delete_project "g1") request ana "ana" "bolt" world refl
      refl refl
