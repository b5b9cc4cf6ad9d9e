-- ===== src/Http/Tenancy.antt =====
-- What the routes of one organization leave alone: the rows of all the others.
pub mod Services
pub mod Creations
pub mod Checkout
pub mod Handlers
pub mod Files
pub mod Within
pub mod Routes
pub mod Isolation
use vergo.Prelude.{
  String, ◌==◌, ◌≡◌, Bool, not, List, inl, inr, ◌⊎◌, [], ◌∷◌, ◌++◌, ap, ◌∙◌, Bool-cases, refl,
  Option-cases, arith, eq_iff, eq_refl, ℕ, Option, sym, if◌then◌else◌, none, some,
}
use vergo.Prelude.Int.{ℤ}
use vergo.Prelude.Json.{Json}
use vergo.Table.{select}
use vergo.Table.Laws.{select-append_other, select-update, select-delete}
use vergo.Platform.{Platform}
use vergo.Db.{World, Tables, Act, Res-cases, ok, err}
use vergo.Db.Rows.{
  Project, File, ApiKey, WebhookEndpoint, Subscription, AuditLog, Membership, Organization,
}
use vergo.Repo.Audit.{insert_audit_log}
use vergo.Domain.Project
use vergo.Domain.Audit.{Event, add_event, event_row}
use vergo.Http.Gin.{Context, org_id, user_id}
use vergo.Http.Handlers.Orgs.{event, before, after}
use vergo.Http.Handlers.Projects
use vergo.Http.Handlers.Projects.{ProjectIn}
use vergo.Repo.Projects.{project_in_org, updated_project}

-- The rows of all organizations but one.
pub record Outside : Type 0 where
  pub projects : List Project
  pub files : List File
  pub api_keys : List ApiKey
  pub endpoints : List WebhookEndpoint
  pub subscriptions : List Subscription
  pub memberships : List Membership
  pub organizations : List Organization
  pub audit_logs : List AuditLog

abbrev pub outside : String → Tables → Outside
outside oid t = record {
  projects = select (λ r. not (r.org_id == oid)) t.projects;
  files = select (λ r. not (r.org_id == oid)) t.files;
  api_keys = select (λ r. not (r.org_id == oid)) t.api_keys;
  endpoints = select (λ r. not (r.org_id == oid)) t.webhook_endpoints;
  subscriptions = select (λ r. not (r.org_id == oid)) t.subscriptions;
  memberships = select (λ r. not (r.org_id == oid)) t.memberships;
  organizations = select (λ r. not (r.id == oid)) t.organizations;
  audit_logs = select (λ r. not (r.org_id == oid)) t.audit_logs;
}

-- A change of one table, whose rows of the others stay.
module _ (oid : String) (t v : Tables) where
  pub outside-projects :
      v ≡ record t { projects = v.projects }
      → select (λ r. not (r.org_id == oid)) v.projects
        ≡ select (λ r. not (r.org_id == oid)) t.projects
      → outside oid v ≡ outside oid t
  outside-projects e h = ap (outside oid) e ∙ ap (λ l. record (outside oid t) { projects = l }) h

  pub outside-files :
      v ≡ record t { files = v.files }
      → select (λ r. not (r.org_id == oid)) v.files ≡ select (λ r. not (r.org_id == oid)) t.files
      → outside oid v ≡ outside oid t
  outside-files e h = ap (outside oid) e ∙ ap (λ l. record (outside oid t) { files = l }) h

  pub outside-api_keys :
      v ≡ record t { api_keys = v.api_keys }
      → select (λ r. not (r.org_id == oid)) v.api_keys
        ≡ select (λ r. not (r.org_id == oid)) t.api_keys
      → outside oid v ≡ outside oid t
  outside-api_keys e h = ap (outside oid) e ∙ ap (λ l. record (outside oid t) { api_keys = l }) h

  pub outside-webhook_endpoints :
      v ≡ record t { webhook_endpoints = v.webhook_endpoints }
      → select (λ r. not (r.org_id == oid)) v.webhook_endpoints
        ≡ select (λ r. not (r.org_id == oid)) t.webhook_endpoints
      → outside oid v ≡ outside oid t
  outside-webhook_endpoints e h =
      ap (outside oid) e ∙ ap (λ l. record (outside oid t) { endpoints = l }) h

  pub outside-subscriptions :
      v ≡ record t { subscriptions = v.subscriptions }
      → select (λ r. not (r.org_id == oid)) v.subscriptions
        ≡ select (λ r. not (r.org_id == oid)) t.subscriptions
      → outside oid v ≡ outside oid t
  outside-subscriptions e h =
      ap (outside oid) e ∙ ap (λ l. record (outside oid t) { subscriptions = l }) h

  pub outside-audit_logs :
      v ≡ record t { audit_logs = v.audit_logs }
      → select (λ r. not (r.org_id == oid)) v.audit_logs
        ≡ select (λ r. not (r.org_id == oid)) t.audit_logs
      → outside oid v ≡ outside oid t
  outside-audit_logs e h =
      ap (outside oid) e ∙ ap (λ l. record (outside oid t) { audit_logs = l }) h
