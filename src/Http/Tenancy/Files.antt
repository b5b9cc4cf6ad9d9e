-- ===== src/Http/Tenancy/Files.antt =====
-- The same for the handlers of files, and for those that only read.
use vergo.Prelude.{String, ◌≡◌, refl, arith, Option, none, some, ap}
use vergo.Platform.{Platform}
use vergo.Config.{Config}
use vergo.Db.{World, pure, raise, attempt, or_fail}
use vergo.Db.Keeps.{Keeps, Keeps-part}
use vergo.S3
use vergo.Prelude.Int.{ℤ, pos}
use vergo.Repo.Audit.{AuditFilter, list_audit_logs}
use vergo.Domain.Audit as Events
use vergo.Domain.File
use vergo.Http.Gin.{
  Context, Params, Body, Handler, Response, param, reply, fails, bind, require, org_id, user_id,
  or_empty,
}
use vergo.Http.Handlers.Projects
use vergo.Http.Handlers.ApiKeys
use vergo.Http.Handlers.Billing
use vergo.Http.Handlers.Webhooks
use vergo.Http.Handlers.Audit
use vergo.Http.Handlers.Audit.{AuditQuery}
use vergo.Http.Handlers.Storage
use vergo.Http.Handlers.Storage.{PresignPutIn, PresignGetIn, FileCreateIn, register, policy_error}
use vergo.Http.Tenancy.{Outside, outside}
use vergo.Http.Tenancy.Services.{outside-create_file, outside-delete_file}
use vergo.Http.Tenancy.Handlers.{Kept, then-Keeps, answers, require-Keeps}

db-get_file : (oid id : String) (w : World) → (File.get oid id w).1.db ≡ w.db
unfolding File.get
db-get_file oid id w = ground arith

db-delete_object : (d b k : String) (w : World) → (S3.delete_object d b k w).1.db ≡ w.db
unfolding S3.delete_object
db-delete_object d b k w = refl

db-list_audit_logs :
    (p : Platform) (f : AuditFilter) (limit offset : ℤ) (w : World)
    → (list_audit_logs p f limit offset w).1.db ≡ w.db
unfolding list_audit_logs
db-list_audit_logs p f limit offset w = ground arith

db-audit_list :
    (p : Platform) (f : AuditFilter) (limit offset : ℤ) (w : World)
    → (Events.list p f limit offset w).1.db ≡ w.db
unfolding Events.list
db-audit_list p f limit offset w = db-list_audit_logs p f _ _ w

module _ (p : Platform) (cfg : Config) (c : Context) (v : Outside) where
  abbrev here : String
  here = or_empty (org_id c)

  abbrev pub IsTenant : Handler → Type 0
  IsTenant h = Keeps (Kept here v) h

  reads : (h : Handler) → ((w : World) → (h w).1.db ≡ w.db) → IsTenant h
  reads h same =
      Keeps-part (λ w. outside here w.db) (λ x. x ≡ v) h (λ w. ap (outside here) (same w))

  storage-register :
      (uid : String) (input : FileCreateIn) → IsTenant (register p cfg here uid input)
  unfolding register
  storage-register uid input =
      then-Keeps here v
        (or_fail (fails 500 "create_failed") (
          File.create p here uid input.bucket (Storage.object_key here uid input.key)
            input.size_bytes input.content_type input.metadata))
        _
        (λ w.
          outside-create_file p here w uid input.bucket (Storage.object_key here uid input.key)
            input.content_type input.size_bytes input.metadata)
        λ f. answers here v (pure (reply 201 (Body.file f))) (λ w. refl)

  checked :
      (refused : Option Response) (uid : String) (input : FileCreateIn)
      → IsTenant (elim refused [ some r ↦ raise r | none ↦ register p cfg here uid input ])
  checked none uid input = storage-register uid input
  checked (some r) uid input = answers here v (raise r) (λ w. refl)

  pub storage-create : (body : Option FileCreateIn) → IsTenant (Storage.create_file p cfg c body)
  unfolding Storage.create_file
  storage-create body = require-Keeps (org_id c) v _ _ (
      then-Keeps here v (require _ (user_id c)) _ (λ w. ground arith)
        λ uid.
          then-Keeps here v (bind body) _ (λ w. ground arith)
            λ input. checked (policy_error cfg input) uid input)

  pub storage-delete : (ps : Params) → IsTenant (Storage.delete_file cfg c ps)
  unfolding Storage.delete_file
  storage-delete ps = require-Keeps (org_id c) v _ _ (
      then-Keeps here v (or_fail (fails 404 "not_found") (File.get here (param "id" ps))) _
        (λ w. ap (outside here) (db-get_file here (param "id" ps) w))
        λ f.
          then-Keeps here v (attempt (S3.delete_object cfg.s3_bucket f.bucket f.object_key)) _
            (λ w. ap (outside here) (db-delete_object cfg.s3_bucket f.bucket f.object_key w))
            λ _.
              then-Keeps here v
                (or_fail (fails 500 "delete_failed") (File.delete here (param "id" ps))) _
                (λ w. outside-delete_file p here w (param "id" ps))
                λ _. answers here v (pure (reply 204 Body.empty)) (λ w. refl))

  pub storage-presign_put : (body : Option PresignPutIn) → IsTenant (Storage.presign_put p cfg body)
  unfolding Storage.presign_put
  storage-presign_put body = reads _ (λ w. ground arith)

  pub storage-presign_get : (body : Option PresignGetIn) → IsTenant (Storage.presign_get p cfg body)
  unfolding Storage.presign_get
  storage-presign_get body = reads _ (λ w. ground arith)

  pub storage-list : (limit offset : String) → IsTenant (Storage.list_files c limit offset)
  unfolding Storage.list_files
  storage-list limit offset = reads _ (λ w. ground arith)

  pub storage-get : (ps : Params) → IsTenant (Storage.get_file c ps)
  unfolding Storage.get_file
  storage-get ps = reads _ (λ w. ground arith)

  pub projects-list : IsTenant (Projects.list c)
  unfolding Projects.list
  projects-list = reads _ (λ w. ground arith)

  pub projects-get : (ps : Params) → IsTenant (Projects.get c ps)
  unfolding Projects.get
  projects-get ps = reads _ (λ w. ground arith)

  pub api_keys-list : IsTenant (ApiKeys.list c)
  unfolding ApiKeys.list
  api_keys-list = reads _ (λ w. ground arith)

  pub billing-subscription : IsTenant (Billing.subscription c)
  unfolding Billing.subscription
  billing-subscription = reads _ (λ w. ground arith)

  pub billing-usage : IsTenant (Billing.usage c)
  unfolding Billing.usage
  billing-usage = reads _ (λ w. ground arith)

  pub webhooks-list : IsTenant (Webhooks.list_endpoints c)
  unfolding Webhooks.list_endpoints
  webhooks-list = reads _ (λ w. ground arith)

  abbrev size : AuditQuery → ℤ
  size q = Audit.clamp_size (Audit.parse_int q.page_size (pos 20))

  abbrev start : AuditQuery → ℤ
  start q = Audit.page_start (Audit.page_number (Audit.parse_int q.page (pos 1))) (size q)

  pub audit-list : (q : AuditQuery) → IsTenant (Audit.list p c q)
  unfolding Audit.list
  audit-list q = require-Keeps (org_id c) v _ _ (
      then-Keeps here v
        (or_fail (fails 500 "list_failed")
          (Events.list p (Audit.filter_of p here q) (size q) (start q)))
        _ (λ w. ap (outside here) (db-audit_list p (Audit.filter_of p here q) (size q) (start q) w))
        λ events. answers here v (pure _) (λ w. refl))
