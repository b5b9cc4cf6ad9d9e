-- ===== src/Http/Tenancy/Within.antt =====
-- The rows of one organization, as a part of those outside of another.
use vergo.Prelude.{
  String, ◌==◌, ◌≡◌, refl, sym, ap, ◌∙◌, Bool, true, false, not, List, [], ◌∷◌, arith, eq_iff,
}
use vergo.Table.{select}
use vergo.Db.{Tables}
use vergo.Http.Tenancy.{Outside, outside}

-- The rows of one organization.
abbrev pub within : String → Tables → Outside
within id t = record {
  projects = select (λ r. r.org_id == id) t.projects;
  files = select (λ r. r.org_id == id) t.files;
  api_keys = select (λ r. r.org_id == id) t.api_keys;
  endpoints = select (λ r. r.org_id == id) t.webhook_endpoints;
  subscriptions = select (λ r. r.org_id == id) t.subscriptions;
  memberships = select (λ r. r.org_id == id) t.memberships;
  organizations = select (λ r. r.id == id) t.organizations;
  audit_logs = select (λ r. r.org_id == id) t.audit_logs;
}

module _ {A : Type 0} (p q : A → Bool) where
  -- What a selection leaves of another that contains it.
  select-select :
      (xs : List A) → ((x : A) → p x ≡ true → q x ≡ true) → select p (select q xs) ≡ select p xs
  unfolding select
  select-select [] h = refl
  select-select (x ∷ xs) h = ground (arith, h x, select-select xs h)

-- The rows of one organization are among those outside of another.
abbrev narrow : String → Outside → Outside
narrow id v = record {
  projects = select (λ r. r.org_id == id) v.projects;
  files = select (λ r. r.org_id == id) v.files;
  api_keys = select (λ r. r.org_id == id) v.api_keys;
  endpoints = select (λ r. r.org_id == id) v.endpoints;
  subscriptions = select (λ r. r.org_id == id) v.subscriptions;
  memberships = select (λ r. r.org_id == id) v.memberships;
  organizations = select (λ r. r.id == id) v.organizations;
  audit_logs = select (λ r. r.org_id == id) v.audit_logs;
}

module _ (id oid : String) (apart : (id == oid) ≡ false) where
  not_there : (x : String) → (x == id) ≡ true → not (x == oid) ≡ true
  not_there x h = ground (arith, h, apart, eq_iff x id)

  others :
      {A : Type 0} (org : A → String) (xs : List A)
      → select (λ x. org x == id) (select (λ x. not (org x == oid)) xs)
        ≡ select (λ x. org x == id) xs
  others org xs =
      select-select (λ x. org x == id) (λ x. not (org x == oid)) xs (λ x h. not_there (org x) h)

  narrow-outside : (t : Tables) → narrow id (outside oid t) ≡ within id t
  narrow-outside t =
      rw
        (
          others (λ r. r.org_id) t.projects,
          others (λ r. r.org_id) t.files,
          others (λ r. r.org_id) t.api_keys,
          others (λ r. r.org_id) t.webhook_endpoints,
          others (λ r. r.org_id) t.subscriptions,
          others (λ r. r.org_id) t.memberships,
          others (λ r. r.id) t.organizations,
          others (λ r. r.org_id) t.audit_logs,
        )
        refl

  pub within_kept : (t u : Tables) → outside oid t ≡ outside oid u → within id t ≡ within id u
  within_kept t u h = sym (narrow-outside t) ∙ ap (narrow id) h ∙ narrow-outside u
