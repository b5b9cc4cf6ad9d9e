-- ===== src/Tests/Work.antt =====
-- Projects and plans on the sample world.
use vergo.Prelude.{◌≡◌, ◌++◌, refl, Bool, none, some, [], ◌∷◌}
use vergo.Table.{find}
use vergo.Db.Rows
use vergo.Domain.Project.{Project, project_json}
use vergo.Domain.Audit.{event_row}
use vergo.Http.Gin.{Context, serve, user_id, org_id}
use vergo.Http.Handlers.Orgs.{event, after}
use vergo.Http.Handlers.Projects.{ProjectIn}
use vergo.Http.Handlers.Projects
use vergo.Http.Handlers.Projects.Trail.{create-add_event}
use vergo.Http.Middleware.Plan.Gate.{of_org, plan-deleted}
use vergo.Http.Handlers.Billing.{StripeEvent, StripeSubscription, webhook}
use vergo.Tests.Sample.{platform, world}

abbrev made : Project
made = record {
  id = "id0";
  org_id = "bolt";
  name = "X";
  description = "";
  created_by = "bob";
  created_at = 100;
  updated_at = 100;
}

abbrev site : Project
site = record {
  id = "g1";
  org_id = "acme";
  name = "site";
  description = "";
  created_by = "ana";
  created_at = 0;
  updated_at = 0;
}

abbrev bob_at_bolt : Context
bob_at_bolt = record {
  user_id = some "bob";
  org_id = some "bolt";
  role = some "owner";
  api_key_auth = Bool.false;
}

abbrev project_in : ProjectIn
project_in = record { name = "X"; description = "" }

create-add_event_example :
    (serve (Projects.create platform bob_at_bolt (some project_in)) world).1.audit_logs
    ≡ world.audit_logs
      ++ event_row
          (event "bolt" "bob" "project.created" "project" "id0" (after (project_json made)))
          100
        ∷ []
unfolding Projects.create find org_id user_id
create-add_event_example =
    create-add_event platform bob_at_bolt project_in world refl "bolt" "bob" made refl refl refl

abbrev ana_at_acme : Context
ana_at_acme = record {
  user_id = some "ana";
  org_id = some "acme";
  role = some "admin";
  api_key_auth = Bool.false;
}

abbrev s1 : Rows.Subscription
s1 = record {
  id = "s1";
  org_id = "acme";
  stripe_customer_id = "cus_1";
  stripe_subscription_id = some "sub_1";
  status = "active";
  plan = "pro";
  current_period_end = none;
  created_at = 0;
  updated_at = 0;
}

abbrev past_due : StripeSubscription
past_due = record { id = "sub_1"; status = "past_due"; current_period_end = some 9 }

plan-deleted_example :
    (after : Rows.Subscription) × (find
        (of_org "acme")
        (serve
          (webhook platform (some (StripeEvent.subscription_deleted (some past_due))))
          world).1.subscriptions
      ≡ some after)
    × (after.status ≡ "canceled")
    × (after.plan ≡ "pro")
unfolding find
plan-deleted_example = plan-deleted platform "acme" past_due world refl s1 refl refl
