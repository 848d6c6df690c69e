-- ===== src/Billing/Checkout/Authority.antt =====
-- apps/auth-org-service/src/billing: who can start a checkout, and what a checkout leaves alone.
use nestjs_saas.Prelude.{
  ℕ, String, Option, some, Bool, false, not, ◌&&◌, List, [], ◌∷◌, map, Memᴰ, if◌then◌else◌, ◌≡◌,
  refl, subst, ◌∙◌, arith, Option-cases, Bool-cases, inl, inr, ◌==◌, eq_iff, or_default,
}
use nestjs_saas.Exec.{ok, ◌>>=◌, Result-cases, >>=-eq-ok, or_throw-eq-ok, throw_if-eq-ok, gets-eq}
use nestjs_saas.Prisma.{Prisma}
use nestjs_saas.Js.Text.{trim}
use nestjs_saas.Common.Roles.{Role, org_admin, role_eq, role_eq_iff}
use nestjs_saas.Common.Tiers.{SubscriptionTier}
use nestjs_saas.Auth.State.{Tenant, User, Db}
use nestjs_saas.Exec.Keeps.{
  after_throw_if, after_pure, after_or_throw, after_lift, after_gets, after_call,
}
use nestjs_saas.Billing.Stripe.{Stripe, BillingEnv, truthy, trimmed}
use nestjs_saas.Billing.Checkout.{
  CreateCheckout, CheckoutBody, customer_for, create_checkout_session, assert_internal_auth,
  create_checkout,
}

matched : (a b : Role) → not (role_eq a b) ≡ false → a ≡ b
matched a b e = ground (arith, role_eq_iff a b)

own_tenant :
    (role : Role) (t u : String)
    → role_eq role org_admin && not (t == u) ≡ false
    → role ≡ org_admin
    → t ≡ u
own_tenant role t u e same = ground (arith, eq_iff t u)

module _ (prisma : Prisma) (env : BillingEnv) where
  -- What a tenant is entitled to.
  abbrev pub entitlement : Tenant → String × SubscriptionTier × Option ℕ × Option String
  entitlement t = (t.id, t.subscription_tier, t.included_learner_seats, t.stripe_subscription_id)

  asserted :
      (internal_auth : Option String) (db s : Db) (u : Unit {0})
      → assert_internal_auth prisma env internal_auth db ≡ (ok u, s)
      → (trimmed env.internal_service_secret ≡ some (trim (or_default internal_auth ""))) × (s ≡ db)
  unfolding ◌>>=◌
  asserted internal_auth db s u e = elim (Option-cases (trimmed env.internal_service_secret)) [
    | inl missing ↦ ground arith
    | inr (secret, configured) ↦ (
      ground (arith, eq_iff (trim (or_default internal_auth "")) secret),
      ground (arith, eq_iff (trim (or_default internal_auth "")) secret),
    )
  ]

  -- A checkout is started only for a caller that knows the internal secret, on behalf of a user that
  -- is in the database with the role the body names, and, if that is an organisation's
  -- administrator, for that user's own tenant.
  pub create_checkout-actor :
      (stripe : Option Stripe) (now : ℕ) (body : CheckoutBody) (internal_auth : Option String)
      (db db' : Db) (r : String × String)
      → create_checkout prisma env stripe now body internal_auth db ≡ (ok r, db')
      → (actor : User) × Memᴰ actor db.users
        × (trimmed body.actor_user_id ≡ some actor.id)
        × (actor.role ≡ body.actor_role)
        × (actor.role ≡ org_admin → actor.tenant_id ≡ body.tenant_id)
        × (trimmed env.internal_service_secret ≡ some (trim (or_default internal_auth "")))
  unfolding create_checkout
  create_checkout-actor stripe now body internal_auth db db' r e =
      let (u, s, guarded, e1) = >>=-eq-ok (assert_internal_auth prisma env internal_auth) _ db e in
      let (secret, same) = asserted internal_auth db s u guarded in
      let (id, named, e2) = or_throw-eq-ok _ _ _ _ e1 in
      let (actor, found, e3) = or_throw-eq-ok _ _ _ _ (gets-eq _ _ _ e2) in
      let (role, e4) = throw_if-eq-ok _ _ _ _ e3 in
      let (own, e5) = throw_if-eq-ok _ _ _ _ e4 in
      let (met, listed) = prisma.find_first_sound _ _ actor found in
      let is_id = eq_iff actor.id id in
      let is_own = eq_iff actor.tenant_id body.tenant_id in
      (
        actor,
        subst (λ d. Memᴰ actor d.users) same listed,
        ground arith,
        matched _ _ role,
        own_tenant _ _ _ own,
        secret,
      )

  -- The customer is the only thing that a checkout writes.
  customer_written :
      (test : Tenant → Bool) (now : ℕ) (id : String) (rows : List Tenant)
      → map entitlement
          (prisma.update_many test
            (λ t. record t { updated_at = now; stripe_customer_id = some id })
            rows).1
        ≡ map entitlement rows
  customer_written test now id rows = rw prisma.update_many_lem (go rows)
    where
      go :
          (rows : List Tenant)
          → map entitlement (
              map
                (λ t.
                  if test t then record t { updated_at = now; stripe_customer_id = some id } else t)
                rows)
            ≡ map entitlement rows
      go [] = refl
      go (t ∷ rows) = ground (arith, go rows)

  abbrev SameEntitlements : List Tenant → Db → Type 0
  SameEntitlements rows db = map entitlement db.tenants ≡ map entitlement rows

  customer_for-entitlements :
      (stripe : Stripe) (now : ℕ) (tenant_id : String) (tenant : Tenant) (db : Db)
      → SameEntitlements db.tenants (customer_for prisma env stripe now tenant_id tenant db).1
  unfolding ◌>>=◌
  customer_for-entitlements stripe now tenant_id tenant db =
      elim (Option-cases (truthy tenant.stripe_customer_id)) [
        | inr (id, there) ↦ ground arith
        | inl missing ↦ elim (Result-cases (stripe.create_customer tenant_id)) [
          | inl (id, made) ↦
              ground (arith, customer_written (λ t. t.id == tenant_id) now id db.tenants)
          | inr (x, rejected) ↦ ground arith
        ]
      ]

  session-entitlements :
      (stripe : Option Stripe) (now : ℕ) (payload : CreateCheckout) (db : Db)
      → SameEntitlements db.tenants (create_checkout_session prisma env stripe now payload db).1
  unfolding create_checkout_session
  session-entitlements stripe now payload db =
      let P = SameEntitlements db.tenants in
      after_or_throw P stripe _ _ db refl (λ s e. after_throw_if P _ _ _ db refl (λ given.
        after_or_throw P _ _ _ db refl (λ price e. after_gets P _ _ db (
          after_or_throw P _ _ _ db refl (λ tenant e.
            let same = customer_for-entitlements s now (trim payload.tenant_id) tenant db in
            after_call P _ _ db same (λ c e.
              after_lift P _ _ _ same
                (λ session e. after_or_throw P _ _ _ _ same (λ url e. after_pure P _ _ same))))))))

  assert_internal_auth-entitlements :
      (internal_auth : Option String) (db : Db)
      → SameEntitlements db.tenants (assert_internal_auth prisma env internal_auth db).1
  unfolding ◌>>=◌
  assert_internal_auth-entitlements internal_auth db =
      elim (Option-cases (trimmed env.internal_service_secret)) [
        | inl missing ↦ ground arith
        | inr (secret, configured) ↦
            elim (Bool-cases (trim (or_default internal_auth "") == secret)) [
              | inl known ↦ ground arith
              | inr unknown ↦ ground arith
            ]
      ]

  -- A checkout by itself changes no tenant's tier, seats or subscription, whether it returns or
  -- throws; only the events that Stripe sends afterwards do.
  pub create_checkout-entitlements :
      (stripe : Option Stripe) (now : ℕ) (body : CheckoutBody) (internal_auth : Option String)
      (db : Db)
      → map entitlement (create_checkout prisma env stripe now body internal_auth db).1.tenants
        ≡ map entitlement db.tenants
  unfolding create_checkout
  create_checkout-entitlements stripe now body internal_auth db =
      let P = SameEntitlements db.tenants in
      let h = assert_internal_auth-entitlements internal_auth db in
      after_call P _ _ db h (λ u e. after_or_throw P _ _ _ _ h (λ id e. after_gets P _ _ _ (
        after_or_throw P _ _ _ _ h (λ actor e. after_throw_if P _ _ _ _ h (λ role.
          after_throw_if P _ _ _ _ h (λ own.
            session-entitlements stripe now
              (record { tenant_id = body.tenant_id; tier = body.tier; actor_user_id = some id })
              (assert_internal_auth prisma env internal_auth db).1
            ∙ h))))))
