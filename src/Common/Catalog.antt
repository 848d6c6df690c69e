-- ===== src/Common/Catalog.antt =====
-- libs/common/src/billing/stripe-catalog.ts: from Stripe prices to a tier and its learner seats.
pub mod Entitlements
use nestjs_saas.Prelude.{
  ℕ, ◌+◌, ◌*◌, String, ◌==◌, Option, none, some, Bool, true, false, List, [], ◌∷◌, ◌++◌, ltb,
  if◌then◌else◌,
}
use nestjs_saas.Js.Text.{trim}
use nestjs_saas.Js.Number.{ℤ, math_max, nat_max}
use nestjs_saas.Common.Tiers.{SubscriptionTier, free, pro, enterprise, tier_rank, tier_eq}

pub record TierPrice : Type 0 where
  pub price_id : String
  pub tier : SubscriptionTier
  pub included_learner_seats : ℕ

abbrev pub Catalog : Type 0
Catalog = List TierPrice

-- A quantity that is not finite is `none`.
pub record SubscriptionLine : Type 0 where
  pub price_id : String
  pub quantity : Option ℤ

abbrev pub default_included_seats : SubscriptionTier → ℕ
default_included_seats free = 3
default_included_seats pro = 10
default_included_seats enterprise = 100

-- `if (price) tierPrices.push(…)`, for an environment variable that may be unset or blank
configured : SubscriptionTier → Option String → Catalog
configured tier none = []
configured tier (some raw) =
    if trim raw == ""
    then []
    else record {
      price_id = trim raw;
      tier = tier;
      included_learner_seats = default_included_seats tier;
    }
      ∷ []

-- `STRIPE_PRICE_PRO` and `STRIPE_PRICE_ENTERPRISE` of the environment
unfoldable pub parse_stripe_billing_catalog : Option String → Option String → Catalog
unfolding configured
parse_stripe_billing_catalog pro_price enterprise_price =
    configured pro pro_price ++ configured enterprise enterprise_price

-- `tierByPrice.get(id)`: of two entries with one price the later has replaced the earlier.
unfoldable pub tier_by_price : Catalog → String → Option TierPrice
tier_by_price [] id = none
tier_by_price (t ∷ ts) id = elim (tier_by_price ts id) [
  | some later ↦ some later
  | none ↦ if t.price_id == id then some t else none
]

abbrev pub whole_quantity : Option ℤ → ℕ
whole_quantity none = 1
whole_quantity (some q) = math_max 1 q

-- The loop's variables.
pub record Totals : Type 0 where
  pub tier : SubscriptionTier
  pub saw_tier_line : Bool
  pub bundled_seats : ℕ

add_line : TierPrice → Option ℤ → Totals → Totals
add_line def quantity t =
    let seats = def.included_learner_seats * whole_quantity quantity in
    if ltb (tier_rank t.tier) (tier_rank def.tier)
    then record { tier = def.tier; saw_tier_line = true; bundled_seats = seats }
    else if tier_eq def.tier t.tier
    then record { tier = t.tier; saw_tier_line = true; bundled_seats = t.bundled_seats + seats }
    else record { tier = t.tier; saw_tier_line = true; bundled_seats = t.bundled_seats }

pub add_lines : Catalog → List SubscriptionLine → Totals → Totals
add_lines catalog [] t = t
add_lines catalog (line ∷ lines) t = elim (tier_by_price catalog line.price_id) [
  | none ↦ add_lines catalog lines t
  | some def ↦ add_lines catalog lines (add_line def line.quantity t)
]

abbrev pub no_lines : Totals
no_lines = record { tier = free; saw_tier_line = false; bundled_seats = 0 }

abbrev finish : Totals → SubscriptionTier × Option ℕ
finish t = if t.saw_tier_line then (t.tier, some (nat_max 1 t.bundled_seats)) else (free, none)

unfoldable pub resolve_subscription_entitlements :
    List SubscriptionLine → Catalog → SubscriptionTier × Option ℕ
unfolding add_lines add_line
resolve_subscription_entitlements lines catalog = finish (add_lines catalog lines no_lines)
