-- ===== src/Http/Tenancy/Checkout.antt =====
-- A checkout session, whose customer may be a new one.
use vergo.Prelude.{
  String, ◌≡◌, ◌∙◌, ap, ◌+◌, none, arith, inl, inr, Option-cases, refl, some, ◌⊎◌, ◌==◌, Bool-cases,
}
use vergo.Table.{find}
use vergo.Platform.{Platform}
use vergo.Db.{World, Err, ok, err}
use vergo.Db.Rows.{Subscription}
use vergo.Repo.Subscriptions.{get_subscription_by_org, upsert_subscription}
use vergo.Domain.Billing.{create_checkout_session}
use vergo.Http.Tenancy.{outside}
use vergo.Http.Tenancy.Services.{List-cases}
use vergo.Http.Tenancy.Creations.{outside-upsert_subscription}

db-get_subscription : (oid : String) (w : World) → (get_subscription_by_org oid w).1.db ≡ w.db
unfolding get_subscription_by_org
db-get_subscription oid w = ground arith

-- A row, no row, or an error of the driver.
found_cases :
    (oid : String) (w : World)
    → ((sub : Subscription) × ((get_subscription_by_org oid w).0 ≡ ok sub))
      ⊎ ((get_subscription_by_org oid w).0 ≡ err Err.no_rows)
      ⊎ ((get_subscription_by_org oid w).0 ≡ err Err.driver_error)
unfolding get_subscription_by_org
found_cases oid w = elim (Option-cases (find (λ s. s.org_id == oid) w.subscriptions)) [
  | inr (sub, e) ↦ elim (List-cases w.faults) [
    | inl f ↦ inl (sub, ground (arith, e, f))
    | inr (f, fs, g) ↦ elim (Bool-cases f) [
      | inl y ↦ inr (inr (ground (arith, g, y)))
      | inr n ↦ inl (sub, ground (arith, e, g, n))
    ]
  ]
  | inl e ↦ elim (List-cases w.faults) [
    | inl f ↦ inr (inl (ground (arith, e, f)))
    | inr (f, fs, g) ↦ elim (Bool-cases f) [
      | inl y ↦ inr (inr (ground (arith, g, y)))
      | inr n ↦ inr (inl (ground (arith, e, g, n)))
    ]
  ]
]

module _ (p : Platform) (oid : String) (w : World) where
  abbrev searched : World
  searched = (get_subscription_by_org oid w).1

  abbrev with_customer : String → World
  with_customer customer =
      (upsert_subscription p
        (record {
          org_id = oid;
          stripe_customer_id = customer;
          stripe_subscription_id = none;
          status = "incomplete";
          plan = "free";
          current_period_end = none;
        })
        (record searched { drawn = searched.drawn + 1 })).1

  db-found :
      (name success cancel price : String) (sub : Subscription)
      → (get_subscription_by_org oid w).0 ≡ ok sub
      → (create_checkout_session p oid name success cancel price w).1.db ≡ searched.db
  unfolding create_checkout_session
  db-found name success cancel price sub e = ground (arith, e)

  db-failed :
      (name success cancel price : String)
      → (get_subscription_by_org oid w).0 ≡ err Err.driver_error
      → (create_checkout_session p oid name success cancel price w).1.db ≡ searched.db
  unfolding create_checkout_session
  db-failed name success cancel price e = ground (arith, e)

  db-refused :
      (name success cancel price : String)
      → (get_subscription_by_org oid w).0 ≡ err Err.no_rows
      → p.stripe_customer searched.drawn name oid ≡ none
      → (create_checkout_session p oid name success cancel price w).1.db ≡ searched.db
  unfolding create_checkout_session
  db-refused name success cancel price e g = ground (arith, e, g)

  db-created :
      (name success cancel price customer : String)
      → (get_subscription_by_org oid w).0 ≡ err Err.no_rows
      → p.stripe_customer searched.drawn name oid ≡ some customer
      → (create_checkout_session p oid name success cancel price w).1.db
        ≡ (with_customer customer).db
  unfolding create_checkout_session
  db-created name success cancel price customer e g = ground (arith, e, g)

  pub outside-checkout :
      (name success cancel price : String)
      → outside oid (create_checkout_session p oid name success cancel price w).1.db
        ≡ outside oid w.db
  outside-checkout name success cancel price =
      let same = ap (outside oid) (db-get_subscription oid w) in
      elim (found_cases oid w) [
        | inl (sub, e) ↦ ap (outside oid) (db-found name success cancel price sub e) ∙ same
        | inr (inr e) ↦ ap (outside oid) (db-failed name success cancel price e) ∙ same
        | inr (inl e) ↦ elim (Option-cases (p.stripe_customer searched.drawn name oid)) [
          | inl g ↦ ap (outside oid) (db-refused name success cancel price e g) ∙ same
          | inr (customer, g) ↦
              ap (outside oid) (db-created name success cancel price customer e g)
              ∙ outside-upsert_subscription p oid (record searched { drawn = searched.drawn + 1 }) _
                  refl
              ∙ same
        ]
      ]
