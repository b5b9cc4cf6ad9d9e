-- ===== src/Http/Health.antt =====
-- The routes that cmd/api/main.go answers itself. The uptime is a number of nanoseconds.
use vergo.Prelude.{ℕ, ◌-◌}
use vergo.Config.{Config}
use vergo.Db.{pure}
use vergo.Http.Gin.{Handler, Body, reply}

-- GET /healthz
unfoldable pub healthz : Config → ℕ → Handler
healthz cfg started_at w =
    pure (reply 200 (Body.health (w.now - started_at) cfg.app_version cfg.app_env)) w

-- GET /readyz
unfoldable pub readyz : Handler
readyz = pure (reply 200 Body.empty)

-- GET /v1/_ping
unfoldable pub ping : Handler
ping = pure (reply 200 Body.pong)
