-- ===== src/Repo/Webhooks.antt =====
-- internal/repo/webhooks.sql.go
use vergo.Prelude.{
  ℕ, ◌+◌, String, ◌==◌, ◌&&◌, ◌++◌, ◌∷◌, [], List, Bool, true, false, Option, none, some, not, leb,
  ltb, holds, is_some, elem, take, if◌then◌else◌,
}
use vergo.Table.{find, select, update, order_by}
use vergo.Platform.{Platform}
use vergo.Db.{Act, Err, ok, err, query, one, draw, ◌>>=◌}
use vergo.Db.Rows.{WebhookEndpoint, WebhookDelivery}
use vergo.Repo.Orgs.{is_org}

module _ (p : Platform) where
  unfoldable pub create_webhook_endpoint :
      String → String → String → List String → Act Err WebhookEndpoint
  unfolding query
  create_webhook_endpoint org_id url secret events = draw >>= λ n. query λ w.
      let row : WebhookEndpoint = record {
        id = p.uuid n;
        org_id = org_id;
        url = url;
        secret = secret;
        events = events;
        active = true;
        created_at = w.now;
        updated_at = w.now;
      } in
      if is_some (find (λ e. e.id == p.uuid n) w.webhook_endpoints)
      then err Err.unique_violation
      else if is_org w.db org_id
      then ok (row, record w.db { webhook_endpoints = w.webhook_endpoints ++ row ∷ [] })
      else err Err.fk_violation

  -- The parameter $2 is a text: what pq.Array makes of the list of events.
  unfoldable pub get_active_endpoints_for_event :
      String → List String → Act Err (List WebhookEndpoint)
  unfolding query
  get_active_endpoints_for_event org_id events = query λ w. ok (
    select (λ e. e.org_id == org_id && e.active && elem (p.pq_array events) e.events)
        w.webhook_endpoints,
    w.db,
  )

  unfoldable pub insert_delivery : String → String → String → Act Err String
  unfolding query
  insert_delivery endpoint_id event payload = draw >>= λ n. query λ w.
      if is_some (find (λ d. d.id == p.uuid n) w.webhook_deliveries)
      then err Err.unique_violation
      else if is_some (find (λ e. e.id == endpoint_id) w.webhook_endpoints)
      then ok (
        p.uuid n,
        record w.db {
          webhook_deliveries =
              w.webhook_deliveries
              ++ record {
                id = p.uuid n;
                endpoint_id = endpoint_id;
                event = event;
                payload = payload;
                status_code = none;
                response = none;
                attempts = 0;
                next_retry = some w.now;
                delivered = false;
                created_at = w.now;
              }
                ∷ [];
        },
      )
      else err Err.fk_violation

unfoldable pub list_webhook_endpoints : String → Act Err (List WebhookEndpoint)
unfolding query
list_webhook_endpoints org_id = query λ w. ok (
  order_by (λ a b. leb b.created_at a.created_at)
      (select (λ e. e.org_id == org_id) w.webhook_endpoints),
  w.db,
)

abbrev pub endpoint_in_org : String → String → WebhookEndpoint → Bool
endpoint_in_org org_id id e = e.id == id && e.org_id == org_id

unfoldable pub update_webhook_endpoint :
    String → String → String → List String → Bool → Act Err (Unit {0})
unfolding query
update_webhook_endpoint org_id id url events active = query λ w. ok (
  tt,
  record w.db {
    webhook_endpoints =
        update (endpoint_in_org org_id id)
          (λ e. record e { url = url; events = events; active = active; updated_at = w.now })
          w.webhook_endpoints;
  },
)

unfoldable pub get_webhook_endpoint : String → String → Act Err WebhookEndpoint
unfolding query
get_webhook_endpoint org_id id =
    query λ w. one w (find (endpoint_in_org org_id id) w.webhook_endpoints)

-- A row of GetPendingDeliveries.
pub record PendingDelivery : Type 0 where
  pub id : String
  pub endpoint_id : String
  pub event : String
  pub payload : String
  pub attempts : ℕ
  pub url : String
  pub secret : String

-- NOT d.delivered AND d.attempts < 5 AND d.next_retry <= now()
abbrev pub is_pending : ℕ → WebhookDelivery → Bool
is_pending now d = not d.delivered && ltb d.attempts 5 && holds (λ t. leb t now) d.next_retry

-- ORDER BY d.next_retry: what is pending has one.
abbrev pub due : WebhookDelivery → ℕ
due d = elim d.next_retry [ none ↦ 0 | some t ↦ t ]

abbrev join_row : WebhookDelivery → Option WebhookEndpoint → List PendingDelivery
join_row d none = []
join_row d (some e) =
    record {
      id = d.id;
      endpoint_id = d.endpoint_id;
      event = d.event;
      payload = d.payload;
      attempts = d.attempts;
      url = e.url;
      secret = e.secret;
    }
    ∷ []

-- JOIN webhook_endpoints e ON e.id = d.endpoint_id: the key of the endpoints matches one at most.
unfoldable pub join_endpoints : List WebhookEndpoint → List WebhookDelivery → List PendingDelivery
join_endpoints es [] = []
join_endpoints es (d ∷ ds) =
    join_row d (find (λ e. e.id == d.endpoint_id) es) ++ join_endpoints es ds

unfoldable pub get_pending_deliveries : ℕ → Act Err (List PendingDelivery)
unfolding query
get_pending_deliveries limit = query λ w. ok (
  take limit (
      join_endpoints w.webhook_endpoints
        (order_by (λ a b. leb (due a) (due b)) (select (is_pending w.now) w.webhook_deliveries))),
  w.db,
)

-- SET delivered = true, status_code = $2, response = $3, attempts = attempts + 1
abbrev pub delivered_row : Option ℕ → Option String → WebhookDelivery → WebhookDelivery
delivered_row status_code response d = record d {
  delivered = true;
  status_code = status_code;
  response = response;
  attempts = d.attempts + 1;
}

unfoldable pub mark_delivered : String → Option ℕ → Option String → Act Err (Unit {0})
unfolding query
mark_delivered id status_code response = query λ w. ok (
  tt,
  record w.db {
    webhook_deliveries =
        update (λ d. d.id == id) (delivered_row status_code response) w.webhook_deliveries;
  },
)

-- SET attempts = attempts + 1, status_code = $2, response = $3, next_retry = $4
abbrev pub retry_row : Option ℕ → Option String → Option ℕ → WebhookDelivery → WebhookDelivery
retry_row status_code response next_retry d = record d {
  attempts = d.attempts + 1;
  status_code = status_code;
  response = response;
  next_retry = next_retry;
}

unfoldable pub mark_retry : String → Option ℕ → Option String → Option ℕ → Act Err (Unit {0})
unfolding query
mark_retry id status_code response next_retry = query λ w. ok (
  tt,
  record w.db {
    webhook_deliveries =
        update (λ d. d.id == id) (retry_row status_code response next_retry) w.webhook_deliveries;
  },
)
