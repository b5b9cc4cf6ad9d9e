-- ===== src/Http/Handlers/Audit.antt =====
-- internal/http/handlers/audit.go
pub mod Paging
use vergo.Prelude.{ℕ, ◌*◌, ◌-◌, String, ◌==◌, Option, none, some, length, if◌then◌else◌}
use vergo.Prelude.Int.{ℤ, pos, negsuc, ltb_ℤ, int64, add_len}
use vergo.Prelude.Parse.{atoi}
use vergo.Platform.{Platform}
use vergo.Db.{pure, or_fail, ◌>>=◌}
use vergo.Repo.Audit.{AuditFilter}
use vergo.Domain.Audit
use vergo.Http.Gin.{Context, Body, Handler, reply, fails, require, org_id}

-- The query of the URL, where a parameter that is missing is "".
pub record AuditQuery : Type 0 where
  pub page : String
  pub page_size : String
  pub actor_id : String
  pub action : String
  pub entity : String
  pub since : String
  pub until : String

unfoldable pub parse_int : String → ℤ → ℤ
unfolding atoi
parse_int s def = if s == "" then def else elim (atoi s) [ none ↦ def | some n ↦ n ]

abbrev pub page_number : ℤ → ℤ
page_number page = if ltb_ℤ page (pos 1) then pos 1 else page

abbrev pub clamp_size : ℤ → ℤ
clamp_size n =
    let size = if ltb_ℤ n (pos 1) then pos 20 else n in
    if ltb_ℤ (pos 100) size then pos 100 else size

-- (page - 1) * pageSize, of a page and a size that are at least 1
abbrev pub page_start : ℤ → ℤ → ℤ
page_start (pos page) (pos size) = int64 ((page - 1) * size)
page_start (pos page) (negsuc size) = pos 0
page_start (negsuc page) size = pos 0

abbrev given : String → Option String
given v = if v == "" then none else some v

-- A date that is not of RFC 3339 is no filter.
abbrev given_time : Platform → String → Option ℕ
given_time p v = if v == "" then none else p.parse_rfc3339 v

abbrev pub filter_of : Platform → String → AuditQuery → AuditFilter
filter_of p oid q = record {
  org_id = oid;
  actor_id = given q.actor_id;
  action = given q.action;
  entity = given q.entity;
  since = given_time p q.since;
  until = given_time p q.until;
}

unfoldable pub list : Platform → Context → AuditQuery → Handler
unfolding org_id parse_int Audit.list
list p c q = do
  oid ← require (reply 400 (Body.error "missing_org_id")) (org_id c)
  let size = clamp_size (parse_int q.page_size (pos 20))
  let number = page_number (parse_int q.page (pos 1))
  let start = page_start number size
  events ← or_fail (fails 500 "list_failed") (Audit.list p (filter_of p oid q) size start)
  pure (
      reply 200 (
        Body.audit_page (record {
          items = events;
          page = number;
          page_size = size;
          next_offset = add_len start (length events);
        })))
