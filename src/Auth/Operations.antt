-- ===== src/Auth/Operations.antt =====
-- apps/auth-org-service/src/auth-org-service.service.ts: `billingOpsSummary`, without the rounded
-- failure rate. The events in the list of failures are the rows themselves.
pub mod Counts
pub mod ByLists
use nestjs_saas.Prelude.{
  ℕ, ◌-◌, ◌*◌, String, Option, Bool, ◌&&◌, List, [], ◌∷◌, leb, ◌==◌, ◌≡◌, or_default, is_some,
  is_none, length, keep, take,
}
use nestjs_saas.Exec.{Action, gets}
use nestjs_saas.Prisma.{Prisma}
use nestjs_saas.Prisma.Keys.{Keyed}
use nestjs_saas.Ordering.{descending}
use nestjs_saas.Js.Maps.{sum_at, same_entry}
use nestjs_saas.Js.Number.{nat_min, nat_max}
use nestjs_saas.Auth.State.{StripeWebhookEvent, Db}

-- `groupBy` of the Prisma client on a text, with the number of rows of each group: one group for a
-- text, in the order that the call asks for.
pub record Grouping : Type 1 where
  pub group_by : {R : Type 0} → (R → Bool) → (R → String) → List R → List (String × ℕ)
  pub group_by_keys :
      {R : Type 0} (test : R → Bool) (text_of : R → String) (rows : List R)
      → Keyed same_entry (group_by test text_of rows)
  pub group_by_count :
      {R : Type 0} (test : R → Bool) (text_of : R → String) (rows : List R) (text : String)
      → sum_at (λ n. n) text (group_by test text_of rows)
        ≡ length (keep (λ r. text_of r == text) (keep test rows))

pub record BillingOps : Type 0 where
  pub window_hours : ℕ
  pub totals : ℕ
  pub processed : ℕ
  pub failed : ℕ
  pub pending : ℕ
  pub by_event_type : List (String × ℕ)
  pub recent_failures : List StripeWebhookEvent

-- `Math.min(168, Math.max(1, hours ?? 24))`
abbrev pub window_hours : Option ℕ → ℕ
window_hours hours = nat_min 168 (nat_max 1 (or_default hours 24))

abbrev pub is_recent : ℕ → ℕ → StripeWebhookEvent → Bool
is_recent hours now e = leb (now - hours * 60 * 60 * 1000) e.created_at

module _ (prisma : Prisma) (grouping : Grouping) where
  abbrev pub summary : Option ℕ → ℕ → Db → BillingOps
  summary hours now db =
      let window = window_hours hours in
      let recent = is_recent window now in
      let events = db.stripe_webhook_events in
      record {
        window_hours = window;
        totals = prisma.count recent events;
        processed = prisma.count (λ e. recent e && is_some e.processed_at) events;
        failed = prisma.count (λ e. recent e && is_some e.handling_error) events;
        pending =
            prisma.count (λ e. recent e && (is_none e.processed_at && is_none e.handling_error))
              events;
        by_event_type = grouping.group_by recent (λ e. e.event_type) events;
        recent_failures = take 20 (
            prisma.find_many (λ e. recent e && is_some e.handling_error)
              (descending (λ e. e.updated_at) ∷ []) events);
      }

  unfoldable pub billing_ops_summary : Option ℕ → ℕ → Action Db BillingOps
  billing_ops_summary hours now = gets (summary hours now)
