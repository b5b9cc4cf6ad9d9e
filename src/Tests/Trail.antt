-- ===== src/Tests/Trail.antt =====
-- The audit log of a sample world.
use vergo.Prelude.{
  ℕ, zero, suc, ◌<◌, String, ◌≡◌, refl, false, none, some, [], ◌∷◌, take, arith, if◌then◌else◌, eqb,
}
use vergo.Prelude.Int.{pos}
use vergo.Table.{select, order_by}
use vergo.Db.{World}
use vergo.Db.Rows.{AuditLog}
use vergo.Http.Gin.{Context, org_id}
use vergo.Http.Handlers.Audit.{AuditQuery, filter_of, list, parse_int}
use vergo.Http.Handlers.Audit.Paging.{pages, newest, pages_lem, not_older}
use vergo.Table.Orders.{IsOrdered}
use vergo.Tests.Sample.{platform, world, tables}

abbrev event_at : ℕ → String → AuditLog
event_at t org = record {
  org_id = org;
  actor_id = "ana";
  action = "project.created";
  entity = "project";
  entity_id = "g1";
  created_at = t;
  metadata = none;
}

abbrev busy : World
busy = record world {
  db = record tables {
    audit_logs = event_at 1 "acme" ∷ event_at 2 "bolt" ∷ event_at 5 "acme" ∷ event_at 4 "acme" ∷ [];
  };
}

abbrev ana : Context
ana = record {
  user_id = some "ana";
  org_id = some "acme";
  role = some "admin";
  api_key_auth = false;
}

abbrev by_two : AuditQuery
by_two = record {
  page = "";
  page_size = "2";
  actor_id = "";
  action = "";
  entity = "";
  since = "";
  until = "";
}

-- The numbers of the first two pages.
abbrev number : ℕ → String
number k = if eqb k 0 then "1" else "2"

numbers : (k : ℕ) → k < 2 → parse_int (number k) (pos 1) ≡ pos (suc k)
unfolding parse_int
numbers zero h = refl
numbers (suc zero) h = refl
numbers (suc (suc k)) h = absurd (omega (arith, h))

two_pages :
    pages platform ana "acme" busy number by_two 2
    ≡ event_at 5 "acme" ∷ event_at 4 "acme" ∷ event_at 1 "acme" ∷ []
unfolding list order_by select
two_pages = refl

pages_lem_example :
    (pages platform ana "acme" busy number by_two 2
      ≡ take 4 (newest (filter_of platform "acme" by_two) busy))
    × IsOrdered not_older (pages platform ana "acme" busy number by_two 2)
unfolding org_id parse_int select
pages_lem_example =
    pages_lem platform ana "acme" busy by_two number 2 2 refl refl
      ((refl, (refl, tt)), ((refl, tt), (tt, tt))) numbers refl (omega arith)
