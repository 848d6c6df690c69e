-- ===== src/Auth/Examples/Operations.antt =====
-- Concrete inputs for the theorem about the summary of Stripe events.
use nestjs_saas.Prelude.{
  ℕ, ◌+◌, ◌≤◌, String, Option, none, some, Bool, ◌-◌, ◌*◌, leb, or_default, [], ◌∷◌, ◌&&◌, ◌≡◌,
  refl, is_some, length, keep,
}
use nestjs_saas.Exec.{gets}
use nestjs_saas.Prisma.ByLists.{by_lists}
use nestjs_saas.Prisma.Windows.{Newest}
use nestjs_saas.Js.Number.{nat_min, nat_max}
use nestjs_saas.Ordering.Insertion.{sort}
use nestjs_saas.Auth.State.{StripeWebhookEvent, Db}
use nestjs_saas.Auth.Operations.{BillingOps, billing_ops_summary}
use nestjs_saas.Auth.Operations.ByLists.{in_groups}
use nestjs_saas.Auth.Operations.Counts.{sum_all, billing_ops_summary-counts}

abbrev event : String → Option ℕ → Option String → StripeWebhookEvent
event id processed_at handling_error = record {
  stripe_event_id = id;
  event_type = "invoice.paid";
  created_at = 5;
  updated_at = 6;
  processed_at = processed_at;
  handling_error = handling_error;
}

abbrev down : StripeWebhookEvent
down = event "e2" none (some "down")

abbrev db : Db
db = record {
  tenants = [];
  users = [];
  memberships = [];
  refresh_tokens = [];
  invites = [];
  stripe_webhook_events = event "e1" (some 6) none ∷ down ∷ event "e3" none none ∷ [];
}

abbrev ops : BillingOps
ops = record {
  window_hours = 24;
  totals = 3;
  processed = 1;
  failed = 1;
  pending = 1;
  by_event_type = ("invoice.paid", 3) ∷ [];
  recent_failures = down ∷ [];
}

billing_ops_summary-counts_example :
    let recent : StripeWebhookEvent → Bool =
      λ e. leb (9 - ops.window_hours * 3600000) e.created_at in
    let number : (StripeWebhookEvent → Bool) → ℕ =
      λ test. length (keep test db.stripe_webhook_events) in
    (db ≡ db)
    × (ops.window_hours ≡ nat_min 168 (nat_max 1 (or_default none 24)))
    × (1 ≤ ops.window_hours)
    × (ops.window_hours ≤ 168)
    × (ops.totals ≡ number recent)
    × (ops.totals + number (λ e. recent e && (is_some e.processed_at && is_some e.handling_error))
        ≡ ops.processed + ops.failed + ops.pending)
    × (sum_all ops.by_event_type ≡ ops.totals)
    × Newest 20
        (λ e. recent e && is_some e.handling_error)
        (λ e. e.updated_at)
        db.stripe_webhook_events
        ops.recent_failures
unfolding billing_ops_summary gets sort
billing_ops_summary-counts_example =
    billing_ops_summary-counts by_lists in_groups none 9 db db ops refl
