-- ===== src/Http/Tenancy/Services.antt =====
-- What the services leave alone that are called for one organization.
use vergo.Prelude.{
  String, ◌==◌, ◌≡◌, Bool, not, List, inl, inr, ◌⊎◌, [], ◌∷◌, refl, arith, eq_refl, Option,
  if◌then◌else◌, none, some,
}
use vergo.Prelude.Int.{ℤ}
use vergo.Prelude.Json.{Json}
use vergo.Table.Laws.{select-append_other, select-update, select-delete}
use vergo.Platform.{Platform}
use vergo.Db.{World}
use vergo.Db.Rows.{
  Project, File, ApiKey, WebhookEndpoint, Subscription, AuditLog, Membership, Organization,
}
use vergo.Domain.Project
use vergo.Domain.Audit.{Event, add_event, event_row}
use vergo.Http.Gin.{org_id}
use vergo.Repo.Projects.{project_in_org, updated_project}
use vergo.Http.Tenancy.{
  outside, outside-projects, outside-files, outside-api_keys, outside-webhook_endpoints,
  outside-audit_logs,
}
use vergo.Domain.ApiKey
use vergo.Db.Rows
use vergo.Domain.Webhook
use vergo.Domain.File
use vergo.Repo.Keys.{live_key}
use vergo.Repo.Files.{file_in_org}
use vergo.Repo.Webhooks.{endpoint_in_org}

pub List-cases : (xs : List Bool) → (xs ≡ []) ⊎ ((x : Bool) × (ys : List Bool) × (xs ≡ x ∷ ys))
List-cases [] = inl refl
List-cases (x ∷ xs) = inr (x, xs, refl)

-- A row of another organization.
abbrev is_other : String → String → Bool
is_other oid org_id = not (org_id == oid)

module _ (p : Platform) (oid : String) (w : World) where
  pub outside-create_project :
      (name description uid : String)
      → outside oid (Project.create p oid name description uid w).1.db ≡ outside oid w.db
  unfolding Project.create
  outside-create_project name description uid =
      outside-projects oid w.db (Project.create p oid name description uid w).1.db (ground arith) (
        ground (
          arith,
          eq_refl oid,
          select-append_other (λ (r : Project). not (r.org_id == oid)) w.projects
              (record {
                id = p.uuid w.drawn;
                org_id = oid;
                name = name;
                description = Project.null_if_empty description;
                created_by = uid;
                created_at = w.now;
                updated_at = w.now;
              }),
        ))

  pub outside-update_project :
      (id name description : String)
      → outside oid (Project.update oid id name description w).1.db ≡ outside oid w.db
  unfolding Project.update
  outside-update_project id name description =
      outside-projects oid w.db (Project.update oid id name description w).1.db (ground arith) (
        ground (
          arith,
          eq_refl oid,
          select-update (λ r. not (r.org_id == oid)) (project_in_org oid id)
              (updated_project name (Project.null_if_empty description) w.now) w.projects
              (λ x e. (ground (arith, e), ground (arith, e))),
        ))

  pub outside-delete_project :
      (id : String) → outside oid (Project.delete oid id w).1.db ≡ outside oid w.db
  unfolding Project.delete
  outside-delete_project id =
      outside-projects oid w.db (Project.delete oid id w).1.db (ground arith) (
        ground (
          arith,
          eq_refl oid,
          select-delete (λ r. not (r.org_id == oid)) (project_in_org oid id) w.projects
              (λ x e. ground (arith, e)),
        ))

  pub outside-add_event :
      (e : Event) → e.org_id ≡ oid → outside oid (add_event e w).1.db ≡ outside oid w.db
  unfolding add_event
  outside-add_event e h = outside-audit_logs oid w.db (add_event e w).1.db (ground arith) (
      ground (
        arith,
        h,
        eq_refl oid,
        select-append_other (λ (r : AuditLog). not (r.org_id == oid)) w.audit_logs
            (event_row e w.now),
      ))

  pub outside-create_file :
      (uid bucket key content_type : String) (size : Option ℤ) (metadata : Option Json)
      → outside oid (File.create p oid uid bucket key size content_type metadata w).1.db
        ≡ outside oid w.db
  unfolding File.create
  outside-create_file uid bucket key content_type size metadata =
      outside-files oid w.db (File.create p oid uid bucket key size content_type metadata w).1.db
        (ground arith)
        (ground (
          arith,
          eq_refl oid,
          select-append_other (λ (r : Rows.File). not (r.org_id == oid)) w.files
              (record {
                id = p.uuid w.drawn;
                org_id = oid;
                uploaded_by = uid;
                bucket = bucket;
                object_key = key;
                size_bytes = size;
                content_type = if content_type == "" then none else some content_type;
                created_at = w.now;
                metadata = metadata;
              }),
        ))

  pub outside-delete_file :
      (id : String) → outside oid (File.delete oid id w).1.db ≡ outside oid w.db
  unfolding File.delete
  outside-delete_file id = outside-files oid w.db (File.delete oid id w).1.db (ground arith) (
      ground (
        arith,
        eq_refl oid,
        select-delete (λ r. not (r.org_id == oid)) (file_in_org oid id) w.files
            (λ x e. ground (arith, e)),
      ))

  pub outside-revoke_api_key :
      (id : String) → outside oid (ApiKey.revoke oid id w).1.db ≡ outside oid w.db
  unfolding ApiKey.revoke
  outside-revoke_api_key id =
      outside-api_keys oid w.db (ApiKey.revoke oid id w).1.db (ground arith) (
        ground (
          arith,
          eq_refl oid,
          select-update (λ r. not (r.org_id == oid)) (live_key oid id)
              (λ k. record k { revoked_at = some w.now }) w.api_keys
              (λ x e. (ground (arith, e), ground (arith, e))),
        ))

  pub outside-update_endpoint :
      (id url : String) (events : List String) (active : Bool)
      → outside oid (Webhook.update_endpoint oid id url events active w).1.db ≡ outside oid w.db
  unfolding Webhook.update_endpoint
  outside-update_endpoint id url events active =
      outside-webhook_endpoints oid w.db (Webhook.update_endpoint oid id url events active w).1.db
        (ground arith)
        (ground (
          arith,
          eq_refl oid,
          select-update (λ r. not (r.org_id == oid)) (endpoint_in_org oid id)
              (λ e. record e { url = url; events = events; active = active; updated_at = w.now })
              w.webhook_endpoints (λ x e. (ground (arith, e), ground (arith, e))),
        ))

  pub db-test_endpoint : (id : String) → (Webhook.test_endpoint p oid id w).1.db ≡ w.db
  unfolding Webhook.test_endpoint
  db-test_endpoint id = ground arith
