-- ===== src/Domain/UserCtx.antt =====
-- internal/domain/userctx/service_pg.go
use vergo.Prelude.{String, Option, none, some}
use vergo.Db.{Act, Err, Res, ok, err}
use vergo.Db.Rows.{UserContext}
use vergo.Repo.Contexts.{get_active_org, upsert_active_org}

context_result : Res Err UserContext → Res Err (Option String)
context_result (ok c) = ok (some c.org_id)
context_result (err Err.no_rows) = ok none
context_result (err e) = err e

-- (org, ok): `none` is ("", false).
unfoldable pub active_org : String → Act Err (Option String)
unfolding get_active_org context_result
active_org user_id w = let (r, v) = get_active_org user_id w in (context_result r, v)

unfoldable pub set_active_org : String → String → Act Err (Unit {0})
unfolding upsert_active_org
set_active_org user_id org_id = upsert_active_org user_id org_id
