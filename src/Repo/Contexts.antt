-- ===== src/Repo/Contexts.antt =====
-- internal/repo/user_contexts.sql.go
use vergo.Prelude.{String, ◌==◌, ◌&&◌, ◌++◌, ◌∷◌, [], is_some, if◌then◌else◌}
use vergo.Table.{find, update}
use vergo.Db.{Act, Err, ok, err, query, one}
use vergo.Db.Rows.{UserContext}
use vergo.Repo.Orgs.{is_user, is_org}

unfoldable pub get_active_org : String → Act Err UserContext
unfolding query
get_active_org user_id = query λ w. one w (find (λ c. c.user_id == user_id) w.user_contexts)

-- INSERT ... ON CONFLICT (user_id) DO UPDATE; both keys are foreign.
unfoldable pub upsert_active_org : String → String → Act Err (Unit {0})
unfolding query
upsert_active_org user_id org_id = query λ w.
    if is_org w.db org_id && is_user w.db user_id
    then if is_some (find (λ c. c.user_id == user_id) w.user_contexts)
      then ok (
        tt,
        record w.db {
          user_contexts =
              update (λ c. c.user_id == user_id)
                (λ c. record c { org_id = org_id; updated_at = w.now }) w.user_contexts;
        },
      )
      else ok (
        tt,
        record w.db {
          user_contexts =
              w.user_contexts
              ++ record { user_id = user_id; org_id = org_id; updated_at = w.now } ∷ [];
        },
      )
    else err Err.fk_violation
