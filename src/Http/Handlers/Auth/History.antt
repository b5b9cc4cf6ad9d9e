-- ===== src/Http/Handlers/Auth/History.antt =====
-- Requests to the authentication handlers, one after the other. Each comes at an instant of its own
-- and under faults of its own.
use vergo.Prelude.{ℕ, Bool, Option, List, [], ◌∷◌}
use vergo.Platform.{Platform}
use vergo.Config.{Config}
use vergo.Db.{World}
use vergo.Db.Keeps.{Keeps}
use vergo.Http.Gin.{Context, Handler, serve}
use vergo.Http.Handlers.Auth.{
  Creds, RefreshReq, ForgotIn, ResetIn, signup, login, refresh, logout, forgot_password,
  reset_password, logout_all,
}

pub data AuthCall : Type 0 where
  signs_up logs_in : Option Creds → AuthCall
  refreshes logs_out : Option RefreshReq → AuthCall
  forgets : Option ForgotIn → AuthCall
  resets : Option ResetIn → AuthCall
  logs_out_all : Context → AuthCall

pub record Arrival : Type 0 where
  pub call : AuthCall
  pub now : ℕ
  pub faults : List Bool

-- The world as a request finds it.
abbrev pub arrive : ℕ → List Bool → World → World
arrive now faults w = record w { now = now; faults = faults }

module _ (p : Platform) (cfg : Config) where
  unfoldable pub handle : AuthCall → Handler
  handle (signs_up body) = signup p cfg body
  handle (logs_in body) = login p cfg body
  handle (refreshes body) = refresh p cfg body
  handle (logs_out body) = logout p cfg body
  handle (forgets body) = forgot_password p cfg body
  handle (resets body) = reset_password p cfg body
  handle (logs_out_all c) = logout_all c

  unfoldable pub run : List Arrival → World → World
  run [] w = w
  run (a ∷ rest) w = run rest (serve (handle a.call) (arrive a.now a.faults w)).1

  -- A property of the tables that every handler keeps holds after any requests.
  pub run_induction :
      (P : World → Type 0)
      → ((c : AuthCall) → Keeps P (handle c))
      → ((now : ℕ) (faults : List Bool) (w : World) → P w → P (arrive now faults w))
      → (arrivals : List Arrival) (w : World) → P w
      → P (run arrivals w)
  unfolding run
  run_induction P keeps moved [] w h = h
  run_induction P keeps moved (a ∷ rest) w h =
      run_induction P keeps moved rest _ ((keeps a.call).at _ (moved a.now a.faults w h))
