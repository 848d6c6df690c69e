-- ===== src/Auth/Operations/Counts.antt =====
-- apps/auth-org-service/src/auth-org-service.service.ts: how the numbers of `billingOpsSummary` fit
-- together.
use nestjs_saas.Prelude.{
  ℕ, ◌+◌, ◌-◌, ◌*◌, ◌≤◌, leb, or_default, String, Option, Bool, false, not, ◌&&◌, List, [], ◌∷◌,
  if◌then◌else◌, ◌≡◌, ◌∙◌, refl, ap, sym, subst, arith, ◌==◌, eq_iff, eq_refl, is_some, is_none,
  length, keep, All,
}
use nestjs_saas.Exec.{ok, gets}
use nestjs_saas.Prisma.{Prisma}
use nestjs_saas.Prisma.Keys.{Keyed}
use nestjs_saas.Prisma.Windows.{Newest, take-Newest}
use nestjs_saas.Js.Number.{nat_min, nat_max}
use nestjs_saas.Js.Maps.{sum_at, same_entry}
use nestjs_saas.Auth.State.{StripeWebhookEvent, Db}
use nestjs_saas.Auth.Operations.{
  Grouping, BillingOps, window_hours, is_recent, summary, billing_ops_summary,
}

-- The sum of all groups
abbrev pub sum_all : List (String × ℕ) → ℕ
sum_all [] = 0
sum_all ((text, n) ∷ groups) = n + sum_all groups

no_entry :
    (text : String) (n : ℕ) (groups : List (String × ℕ))
    → All (λ b. same_entry (text, n) b ≡ false) groups
    → sum_at (λ m. m) text groups ≡ 0
no_entry text n [] h = refl
no_entry text n ((t, m) ∷ groups) h = ground (arith, h.0, no_entry text n groups h.1)

module _ {R : Type 0} where
  keep_partition :
      (test : R → Bool) (rows : List R)
      → length rows ≡ length (keep test rows) + length (keep (λ r. not (test r)) rows)
  keep_partition test [] = omega arith
  keep_partition test (r ∷ rows) = ground (arith, keep_partition test rows)

  -- Whether a group is left out of the rows, for a text of its own and for others.
  keep_apart :
      (text_of : R → String) (text other : String) (rows : List R)
      → length (keep (λ r. text_of r == other) (keep (λ r. not (text_of r == text)) rows))
        ≡ (if text == other then 0 else length (keep (λ r. text_of r == other) rows))
  keep_apart text_of text other [] = ground arith
  keep_apart text_of text other (r ∷ rows) = ground (
    arith,
    keep_apart text_of text other rows,
    eq_iff (text_of r) text,
    eq_iff (text_of r) other,
    eq_iff text other,
  )

  groups_total :
      (text_of : R → String) (groups : List (String × ℕ)) (rows : List R)
      → Keyed same_entry groups
      → ((text : String)
          → sum_at (λ n. n) text groups ≡ length (keep (λ r. text_of r == text) rows))
      → sum_all groups ≡ length rows
  groups_total text_of [] [] keys each = refl
  groups_total text_of [] (r ∷ rows) keys each =
      ground (arith, each (text_of r), eq_refl (text_of r))
  groups_total text_of ((text, n) ∷ groups) rows keys each =
      let none_left = no_entry text n groups keys.0 in
      let rest =
        groups_total text_of groups (keep (λ r. not (text_of r == text)) rows) keys.1 (λ other.
          ground (
            arith,
            each other,
            keep_apart text_of text other rows,
            none_left,
            eq_iff text other,
            ap (λ t. sum_at (λ m. m) t groups),
          )) in
      ground (
        arith,
        rest,
        each text,
        none_left,
        eq_refl text,
        keep_partition (λ r. text_of r == text) rows,
      )

-- Recent events that are marked both as processed and as failed
abbrev both_marks : ℕ → ℕ → List StripeWebhookEvent → ℕ
both_marks hours now events = length (
    keep (λ e. is_recent hours now e && (is_some e.processed_at && is_some e.handling_error))
      events)

split_up :
    (hours now : ℕ) (events : List StripeWebhookEvent)
    → length (keep (is_recent hours now) events) + both_marks hours now events
      ≡ length (keep (λ e. is_recent hours now e && is_some e.processed_at) events)
        + length (keep (λ e. is_recent hours now e && is_some e.handling_error) events)
        + length (
            keep
              (λ e. is_recent hours now e && (is_none e.processed_at && is_none e.handling_error))
              events)
split_up hours now [] = omega arith
split_up hours now (e ∷ events) = ground (arith, split_up hours now events)

in_ms : (hours : ℕ) → hours * 60 * 60 * 1000 ≡ hours * 3600000
in_ms hours = omega arith

module _ (prisma : Prisma) (grouping : Grouping) where
  marks :
      (hours now : ℕ) (events : List StripeWebhookEvent)
      → prisma.count (is_recent hours now) events + both_marks hours now events
        ≡ prisma.count (λ e. is_recent hours now e && is_some e.processed_at) events
          + prisma.count (λ e. is_recent hours now e && is_some e.handling_error) events
          + prisma.count
              (λ e. is_recent hours now e && (is_none e.processed_at && is_none e.handling_error))
              events
  marks hours now events = omega (
    arith,
    split_up hours now events,
    prisma.count_lem (is_recent hours now) events,
    prisma.count_lem (λ e. is_recent hours now e && is_some e.processed_at) events,
    prisma.count_lem (λ e. is_recent hours now e && is_some e.handling_error) events,
    prisma.count_lem
        (λ e. is_recent hours now e && (is_none e.processed_at && is_none e.handling_error)) events,
  )

  -- The summary changes nothing, and covers the number of hours that is asked for, 24 if none is,
  -- brought into 1 to 168. It is about the events that were received in that time: the total is their
  -- number, each of them is counted as processed, failed or pending, and as both processed and failed
  -- where it is marked so, and the numbers of the event types add up to the total. The failures that
  -- are shown are the 20 of these events with an error that were updated last, or all if there are no
  -- more.
  pub billing_ops_summary-counts :
      (hours : Option ℕ) (now : ℕ) (db db' : Db) (r : BillingOps)
      → billing_ops_summary prisma grouping hours now db ≡ (ok r, db')
      → let recent : StripeWebhookEvent → Bool =
          λ e. leb (now - r.window_hours * 3600000) e.created_at in
        let number : (StripeWebhookEvent → Bool) → ℕ =
          λ test. length (keep test db.stripe_webhook_events) in
        (db' ≡ db)
        × (r.window_hours ≡ nat_min 168 (nat_max 1 (or_default hours 24)))
        × (1 ≤ r.window_hours)
        × (r.window_hours ≤ 168)
        × (r.totals ≡ number recent)
        × (r.totals + number (λ e. recent e && (is_some e.processed_at && is_some e.handling_error))
            ≡ r.processed + r.failed + r.pending)
        × (sum_all r.by_event_type ≡ r.totals)
        × Newest 20
            (λ e. recent e && is_some e.handling_error)
            (λ e. e.updated_at)
            db.stripe_webhook_events
            r.recent_failures
  unfolding billing_ops_summary gets
  billing_ops_summary-counts hours now db db' r e =
      let window = window_hours hours in
      let recent = is_recent window now in
      let events = db.stripe_webhook_events in
      let s = summary prisma grouping hours now db in
      let is : s ≡ r = ground (arith, e) in
      let failed_marks = λ (e : StripeWebhookEvent). recent e && is_some e.handling_error in
      (
        ground (arith, e),
        subst (λ x. x.window_hours ≡ window) is refl,
        subst (λ x. 1 ≤ x.window_hours) is (ground arith),
        subst (λ x. x.window_hours ≤ 168) is (ground arith),
        subst
            (λ x.
              x.totals
              ≡ length (keep (λ e. leb (now - x.window_hours * 3600000) e.created_at) events))
            is
            (prisma.count_lem recent events
              ∙ ap
                  (λ w.
                    length (keep (λ (e : StripeWebhookEvent). leb (now - w) e.created_at) events))
                  (in_ms window)),
        subst
            (λ x.
              x.totals
                + length (
                    keep
                      (λ e.
                        leb (now - x.window_hours * 3600000) e.created_at
                        && (is_some e.processed_at && is_some e.handling_error))
                      events)
              ≡ x.processed + x.failed + x.pending)
            is
            (subst
              (λ w.
                s.totals
                  + length (
                      keep
                        (λ e.
                          leb (now - w) e.created_at
                          && (is_some e.processed_at && is_some e.handling_error))
                        events)
                ≡ s.processed + s.failed + s.pending)
              (in_ms window) (marks window now events)),
        subst (λ x. sum_all x.by_event_type ≡ x.totals) is
            (groups_total (λ e. e.event_type) s.by_event_type (keep recent events)
                (grouping.group_by_keys recent (λ e. e.event_type) events)
                (grouping.group_by_count recent (λ e. e.event_type) events)
              ∙ sym (prisma.count_lem recent events)),
        subst
            (λ x.
              Newest 20
                (λ e. leb (now - x.window_hours * 3600000) e.created_at && is_some e.handling_error)
                (λ e. e.updated_at) events x.recent_failures)
            is
            (subst
              (λ w.
                Newest 20 (λ e. leb (now - w) e.created_at && is_some e.handling_error)
                  (λ e. e.updated_at) events s.recent_failures)
              (in_ms window) (take-Newest prisma 20 failed_marks _ events)),
      )
