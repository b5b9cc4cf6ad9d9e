-- ===== src/Tests/Runs.antt =====
-- A run of requests and of a pass of the dispatcher.
use vergo.Prelude.{String, ◌==◌, true, false, some, List, [], ◌∷◌, ◌++◌, ◌≡◌, refl}
use vergo.Table.{find}
use vergo.Db.Rows.{AuditLog}
use vergo.Http.Handlers.Auth.{ResetIn, reset_password}
use vergo.Http.Handlers.Auth.Reset.{invalid_reset}
use vergo.Auth.ResetStore.{validate_and_consume}
use vergo.Repo.AccountTrail.{HasAccount}
use vergo.Http.Gin.{serve}
use vergo.Http.Handlers.Auth.{refresh, invalid_refresh}
use vergo.Http.Handlers.Auth.History.{arrive}
use vergo.Http.Upkeep.Routes.{Route}
use vergo.Http.Runs.{
  Conditions, Step, run, reset_once, run-BeginsWith, run-HasAccount, exchanged_once,
}
use vergo.Tests.Sample.{platform, config, world, tables, request, machine}
use vergo.Tests.Sessions.{req, claims_fixed}

-- The driver fails the last statement.
abbrev conditions : Conditions
conditions = record {
  now = 150;
  faults = false ∷ false ∷ false ∷ false ∷ true ∷ [];
  remote = some 200 ∷ [];
}

abbrev steps : List Step
steps =
    Step.request conditions request (Route.create_org (some (record { name = "beta" })))
    ∷ Step.pass conditions
    ∷ Step.request conditions request (Route.delete_org "acme")
    ∷ Step.request conditions request Route.logout_all
    ∷ []

ana_there :
    find (λ u. u.id == "ana") tables.users
    ≡ some (record { id = "ana"; email = "ana@x"; password_hash = "bpw"; created_at = 0 })
unfolding find
ana_there = refl

run-HasAccount_example : HasAccount "ana" "ana@x" (run platform config steps world).users
run-HasAccount_example =
    run-HasAccount platform config steps world "ana" "ana@x" (
      record { id = "ana"; email = "ana@x"; password_hash = "bpw"; created_at = 0 },
      ana_there,
      refl,
    )

run-BeginsWith_example :
    (later : List AuditLog) × ((run platform config steps world).audit_logs
      ≡ world.audit_logs ++ later)
run-BeginsWith_example = run-BeginsWith platform config steps world

exchanged_once_example :
    (serve (refresh platform config (some req)) (
      arrive 200
        (true ∷ [])
        (run platform config steps (serve (refresh platform config (some req)) world).1))).0
    ≡ invalid_refresh
unfolding refresh machine
exchanged_once_example =
    exchanged_once platform config req world steps 200 (true ∷ []) claims_fixed refl refl

abbrev reset_with : String → ResetIn
reset_with password = record { token = "reset"; new_password = password }

reset_once_example :
    (serve (reset_password platform config (some (reset_with "newer"))) (
      arrive 200 (false ∷ true ∷ []) (
        run platform config steps
          (serve (reset_password platform config (some (reset_with "new"))) world).1))).0
    ≡ invalid_reset
unfolding reset_password validate_and_consume find machine
reset_once_example =
    reset_once platform config (reset_with "new") (reset_with "newer") world steps 200
      (false ∷ true ∷ []) refl ((λ _. refl, tt), tt) refl refl
