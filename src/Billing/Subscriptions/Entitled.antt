-- ===== src/Billing/Subscriptions/Entitled.antt =====
-- apps/auth-org-service: what holds of the tier, the seats and the subscription of every tenant,
-- from registration through every Stripe event.
use nestjs_saas.Prelude.{
  ℕ, ◌≤◌, String, Option, none, some, Bool, true, false, List, if◌then◌else◌, ◌≡◌, ◌≢◌, ◌⊎◌, refl,
  sym, ap, subst, arith, Bool-cases, inl, inr, All, All-imp,
}
use nestjs_saas.Exec.{◌>>=◌}
use nestjs_saas.Prisma.{Prisma}
use nestjs_saas.Js.Number.{nat_max}
use nestjs_saas.Common.Tiers.{SubscriptionTier, free, pro, enterprise}
use nestjs_saas.Common.Catalog.{Catalog, SubscriptionLine, resolve_subscription_entitlements}
use nestjs_saas.Auth.State.{Tenant, Db, Env, free_tier_seat_limit}
use nestjs_saas.Prisma.Rows.{All-update_many}
use nestjs_saas.Billing.Stripe.{Subscription, BillingEnv}
use nestjs_saas.Billing.Subscriptions.{
  with_customer, without_subscription, with_subscription, write_subscription, normalized_seats,
  clear_subscription_by_stripe_id,
}
use nestjs_saas.Common.Catalog.Entitlements.{
  resolve_subscription_entitlements-highest, any_listed, highest, seats_of,
}
use nestjs_saas.Billing.Webhooks.{link_customer}

-- A tenant above FREE has a subscription on record and at least one seat; a FREE tenant has the
-- configured number of free seats, or none on record yet.
pub record IsEntitled (env : Env) (t : Tenant) : Type 0 where
  pub paid : t.subscription_tier ≢ free → t.stripe_subscription_id ≢ none
  pub seated : t.subscription_tier ≢ free → (n : ℕ) × (t.included_learner_seats ≡ some n) × (1 ≤ n)
  pub free_seats :
      t.subscription_tier ≡ free
      → (t.included_learner_seats ≡ none)
        ⊎ (t.included_learner_seats ≡ some (free_tier_seat_limit env))

module _ (prisma : Prisma) (env : BillingEnv) where
  with_customer-IsEntitled :
      (c : Option String) (t : Tenant)
      → IsEntitled env.auth t
      → IsEntitled env.auth (with_customer c t)
  with_customer-IsEntitled none t h = h
  with_customer-IsEntitled (some id) t h = record {
    paid = h.paid;
    seated = h.seated;
    free_seats = h.free_seats;
  }

  without_subscription-IsEntitled :
      (now : ℕ) (t : Tenant) → IsEntitled env.auth (without_subscription env.auth now t)
  without_subscription-IsEntitled now t = record {
    paid = λ p. absurd (p refl);
    seated = λ p. absurd (p refl);
    free_seats = λ _. inr refl;
  }

  -- What `normalizedSeats` makes of the entitlements.
  abbrev HasSeats : SubscriptionTier × Option ℕ → Type 0
  HasSeats r =
      (r.0 ≢ free → 1 ≤ normalized_seats prisma env r)
      × (r.0 ≡ free → normalized_seats prisma env r ≡ free_tier_seat_limit env.auth)

  result-HasSeats :
      (listed : Bool) (tier : SubscriptionTier) (seats : ℕ)
      → HasSeats (if listed then (tier, some (nat_max 1 seats)) else (free, none))
  result-HasSeats false tier seats = (λ p. absurd (p refl), λ _. refl)
  result-HasSeats true free seats = (λ p. absurd (p refl), λ _. refl)
  result-HasSeats true pro seats = (λ _. ground arith, λ e. ground arith)
  result-HasSeats true enterprise seats = (λ _. ground arith, λ e. ground arith)

  entitled-HasSeats :
      (lines : List SubscriptionLine) (c : Catalog)
      → HasSeats (resolve_subscription_entitlements lines c)
  entitled-HasSeats lines c =
      subst HasSeats (sym (resolve_subscription_entitlements-highest lines c)) (
        result-HasSeats (any_listed c lines) (highest c lines free)
          (seats_of c (highest c lines free) lines))

  with_subscription-IsEntitled :
      (now : ℕ) (sub : Subscription) (t : Tenant)
      → IsEntitled env.auth (with_subscription prisma env now sub t)
  unfolding with_subscription
  with_subscription-IsEntitled now sub t = record {
    paid = λ p e. ground arith;
    seated = λ p. (_, refl, (entitled-HasSeats _ _).0 p);
    free_seats = λ p. inr (ap some ((entitled-HasSeats _ _).1 p));
  }

  -- The three ways in which an event writes tenants.
  abbrev pub AllEntitled : Db → Type 0
  AllEntitled db = All (IsEntitled env.auth) db.tenants

  written :
      (test : Tenant → Bool) (change : Tenant → Tenant) (rows : List Tenant)
      → ((t : Tenant) → IsEntitled env.auth t → IsEntitled env.auth (change t))
      → All (IsEntitled env.auth) rows
      → All (IsEntitled env.auth) (prisma.update_many test change rows).1
  written test change rows keeps h = All-update_many prisma (IsEntitled env.auth) test change rows (
      All-imp
        (λ t e. elim (Bool-cases (test t)) [
          | inl met ↦ rw met (keeps t e)
          | inr other ↦ rw other e
        ])
        rows h)

  subscription_written :
      (now : ℕ) (sub : Subscription) (t : Tenant) (pays : Bool)
      → IsEntitled env.auth (
          if pays
          then with_subscription prisma env now sub t
          else without_subscription env.auth now t)
  subscription_written now sub t true = with_subscription-IsEntitled now sub t
  subscription_written now sub t false = without_subscription-IsEntitled now t

  pub write_subscription-AllEntitled :
      (now : ℕ) (sub : Subscription) (id : String) (db : Db)
      → AllEntitled db
      → AllEntitled (write_subscription prisma env now sub id db)
  write_subscription-AllEntitled now sub id db h =
      written _ _ db.tenants
        (λ t _. with_customer-IsEntitled _ _ (subscription_written now sub t _)) h

  pub clear_subscription-AllEntitled :
      (now : ℕ) (id : String) (db : Db)
      → AllEntitled db
      → AllEntitled (clear_subscription_by_stripe_id prisma env now id db).1
  unfolding clear_subscription_by_stripe_id ◌>>=◌
  clear_subscription-AllEntitled now id db h =
      written _ _ db.tenants (λ t _. without_subscription-IsEntitled now t) h

  pub link_customer-AllEntitled :
      (now : ℕ) (tenant_id customer_id : String) (db : Db)
      → AllEntitled db
      → AllEntitled (link_customer prisma env now (some tenant_id) (some customer_id) db)
  link_customer-AllEntitled now tenant_id customer_id db h =
      written _ _ db.tenants
        (λ t e. record { paid = e.paid; seated = e.seated; free_seats = e.free_seats }) h
