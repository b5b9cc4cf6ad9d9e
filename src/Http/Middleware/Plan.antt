-- ===== src/Http/Middleware/Plan.antt =====
-- internal/http/middleware/plan.go
pub mod Gate
use vergo.Prelude.{ℕ, String, ◌==◌, ltb, if◌then◌else◌}
use vergo.Db.{Act, pure, raise, or_fail, ◌>>=◌}
use vergo.Domain.Billing.{get_subscription}
use vergo.Http.Gin.{Context, Response, Body, reply, fails, require, org_id}

-- A plan that the map does not hold counts as 0.
unfoldable pub plan_order : String → ℕ
plan_order plan = if plan == "pro" then 1 else if plan == "enterprise" then 2 else 0

unfoldable pub require_plan : String → Context → Act Response Context
unfolding org_id get_subscription
require_plan min_plan c = do
  oid ← require (reply 400 (Body.error "missing_org_id")) (org_id c)
  sub ← or_fail (fails 500 "plan_check_failed") (get_subscription oid)
  if ltb (plan_order sub.plan) (plan_order min_plan)
      then raise (reply 402 (Body.plan_required min_plan sub.plan))
      else pure c
