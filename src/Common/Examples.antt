-- ===== src/Common/Examples.antt =====
-- Concrete inputs for the theorems about libs/common/src.
use nestjs_saas.Prelude.{none, some, List, [], ◌∷◌, ◌≡◌, refl, if◌then◌else◌}
use nestjs_saas.Js.Number.{pos, nat_max}
use nestjs_saas.Js.Text.{trim}
use nestjs_saas.Common.Tiers.{free, pro}
use nestjs_saas.Common.Catalog.{
  Catalog, SubscriptionLine, parse_stripe_billing_catalog, resolve_subscription_entitlements,
  tier_by_price,
}
use nestjs_saas.Common.Catalog.Entitlements.{
  any_listed, highest, seats_of, resolve_subscription_entitlements-highest,
}

abbrev catalog : Catalog
unfolding parse_stripe_billing_catalog trim
catalog = parse_stripe_billing_catalog (some " price_pro ") (some "price_ent")

abbrev lines : List SubscriptionLine
lines =
    record { price_id = "price_pro"; quantity = some (pos 2) }
    ∷ record { price_id = "seats"; quantity = some (pos 5) }
    ∷ record { price_id = "price_pro"; quantity = none }
    ∷ []

three_times_pro : resolve_subscription_entitlements lines catalog ≡ (pro, some 30)
unfolding resolve_subscription_entitlements tier_by_price parse_stripe_billing_catalog trim
three_times_pro = refl

resolve_subscription_entitlements-highest_example :
    resolve_subscription_entitlements lines catalog ≡ (
      if any_listed catalog lines
      then (
        highest catalog lines free,
        some (nat_max 1 (seats_of catalog (highest catalog lines free) lines)),
      )
      else (free, none))
resolve_subscription_entitlements-highest_example =
    resolve_subscription_entitlements-highest lines catalog
