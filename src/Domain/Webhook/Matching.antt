-- ===== src/Domain/Webhook/Matching.antt =====
-- Which endpoints an event reaches.
use vergo.Prelude.{String, ◌==◌, ◌&&◌, ◌≡◌, refl, false, List, [], ◌∷◌, elem, All, arith}
use vergo.Table.{select}
use vergo.Platform.{Platform}
use vergo.Db.{World}
use vergo.Db.Rows.{WebhookEndpoint}
use vergo.Domain.Webhook.{dispatch, insert_all}

select_none :
    (event : String) (org_id : String) (ws : List WebhookEndpoint)
    → All (λ e. elem event e.events ≡ false) ws
    → select (λ e. e.org_id == org_id && e.active && elem event e.events) ws ≡ []
unfolding select
select_none event org_id [] h = refl
select_none event org_id (e ∷ ws) h = ground (arith, h.0, select_none event org_id ws h.1)

module _ (p : Platform) (org_id event payload : String) (w : World) where
  -- Where no endpoint lists the text that pq.Array makes of the event, a dispatch changes no table,
  -- whichever endpoints list the event itself and whatever the driver does.
  pub dispatch-lists_event :
      All (λ e. elem (p.pq_array (event ∷ [])) e.events ≡ false) w.webhook_endpoints
      → (dispatch p org_id event payload w).1.db ≡ w.db
  unfolding dispatch insert_all
  dispatch-lists_event h =
      ground (arith, select_none (p.pq_array (event ∷ [])) org_id w.webhook_endpoints h)
