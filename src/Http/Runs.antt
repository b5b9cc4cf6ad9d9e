-- ===== src/Http/Runs.antt =====
-- The running server: requests to every route, and passes of the dispatcher, one after the other.
use vergo.Prelude.{ℕ, String, Bool, Option, some, List, [], ◌∷◌, ◌++◌, ◌≡◌, sym, subst, refl}
use mathlib.Core.List.{append-nil}
use vergo.Platform.{Platform}
use vergo.Config.{Config}
use vergo.Db.{World, Tables}
use vergo.Domain.Webhook.Dispatcher.{process_pending}
use vergo.Domain.Upkeep.{process_pending-Upholds}
use vergo.Db.Rows.{AuditLog}
use vergo.Repo.Upkeep.{Laws}
use vergo.Repo.AuditTrail.{log-laws}
use vergo.Repo.AccountTrail.{HasAccount, account-laws}
use vergo.Repo.TokenTrail.{token-laws}
use vergo.Http.Handlers.Auth.{RefreshReq, refresh, invalid_refresh}
use vergo.Http.Handlers.Auth.History.{arrive}
use vergo.Http.Handlers.Auth.SingleUse.{ClaimsFixed, rotation-revokes, refused}
use vergo.Repo.ResetTrail.{IsSpent, reset-laws}
use vergo.Http.Handlers.Auth.{ResetIn, reset_password}
use vergo.Http.Handlers.Auth.Reset.{
  HashIsUnique, reset_password-IsSpent, spent_refused, invalid_reset,
}
use vergo.Http.Gin.{Request, serve}
use vergo.Http.Upkeep.Routes.{Route, handler_of, handler_of-Upholds}

-- What the environment decides of a step: the instant, the failures of the driver and the answers of
-- the receivers of webhooks.
pub record Conditions : Type 0 where
  pub now : ℕ
  pub faults : List Bool
  pub remote : List (Option ℕ)

-- A request, or a pass of the dispatcher.
pub data Step : Type 0 where
  request : Conditions → Request → Route → Step
  pass : Conditions → Step

abbrev under : Conditions → World → World
under c w = record w { now = c.now; faults = c.faults; remote = c.remote }

module _ (p : Platform) (cfg : Config) where
  abbrev pub step : Step → World → World
  step (request c r route) w = (serve (handler_of p cfg route r) (under c w)).1
  step (pass c) w = (process_pending p (under c w)).1

  abbrev pub run : List Step → World → World
  run [] w = w
  run (e ∷ es) w = run es (step e w)

  -- A property of the tables that every statement upholds is one that a run upholds.
  run-Upholds :
      {P : Tables → Type 0} → Laws p P → (es : List Step) (w : World) → P w.db → P (run es w).db
  run-Upholds laws [] w h = h
  run-Upholds laws (request c r route ∷ es) w h =
      run-Upholds laws es _ ((handler_of-Upholds p cfg laws route r).at (under c w) h)
  run-Upholds laws (pass c ∷ es) w h =
      run-Upholds laws es _ ((process_pending-Upholds p laws).at (under c w) h)

  -- The audit log is append-only: under every sequence of requests to the routes and of passes of the
  -- dispatcher, whatever the driver and the receivers do, the events that it holds stay first, as they
  -- are and in their order, also those of an organization that is deleted.
  pub run-BeginsWith :
      (es : List Step) (w : World)
      → (later : List AuditLog) × ((run es w).audit_logs ≡ w.audit_logs ++ later)
  run-BeginsWith es w =
      run-Upholds (log-laws w.audit_logs p) es w ([], sym (append-nil w.audit_logs))

  -- An account is never lost: under every sequence of requests to the routes and of passes of the
  -- dispatcher, whatever the driver and the receivers do, a user who is there stays there, with the
  -- same e-mail.
  pub run-HasAccount :
      (es : List Step) (w : World) (id email : String)
      → HasAccount id email w.users
      → HasAccount id email (run es w).users
  run-HasAccount es w id email h = run-Upholds (account-laws id email p) es w h

  -- Once a refresh token has been exchanged for a new pair, with the statements answered, it is
  -- refused with 401 after every sequence of requests to the routes and of passes of the dispatcher, at
  -- any instant and whatever the driver does. (A token's claims are the same whenever it is parsed.)
  pub exchanged_once :
      (req : RefreshReq) (w : World) (es : List Step) (now : ℕ) (faults : List Bool)
      → ClaimsFixed p cfg.jwt_refresh_secret
      → w.faults ≡ []
      → (serve (refresh p cfg (some req)) w).0.status ≡ 200
      → (serve
          (refresh p cfg (some req))
          (arrive now faults (run es (serve (refresh p cfg (some req)) w).1))).0
        ≡ invalid_refresh
  exchanged_once req w es now faults fixed f h =
      let (c, e, row, revoked) = rotation-revokes p cfg req w f h in
      refused p cfg req _ c row (λ d x. fixed.same w.now now req.refresh_token c d e x)
        (run-Upholds (token-laws c.id row p) es _ revoked)

  -- A password reset token that was accepted with the statements answered is refused with 401 after
  -- every sequence of requests to the routes and of passes of the dispatcher, at any instant, with any
  -- new password and whatever the driver does. The hashes of the tokens are unique.
  pub reset_once :
      (req again : ResetIn) (w : World) (es : List Step) (now : ℕ) (faults : List Bool)
      → again.token ≡ req.token
      → HashIsUnique w.password_reset_tokens
      → w.faults ≡ []
      → (serve (reset_password p cfg (some req)) w).0.status ≡ 200
      → (serve
          (reset_password p cfg (some again))
          (arrive now faults (run es (serve (reset_password p cfg (some req)) w).1))).0
        ≡ invalid_reset
  reset_once req again w es now faults same u f h =
      let v = (serve (reset_password p cfg (some req)) w).1 in
      spent_refused p cfg again (arrive now faults (run es v)) (
        subst (λ token. IsSpent (p.sha256_hex token) (run es v).password_reset_tokens) (sym same)
          (run-Upholds (reset-laws (p.sha256_hex req.token) p) es v
            (reset_password-IsSpent p req.token w f cfg req refl u h)))
