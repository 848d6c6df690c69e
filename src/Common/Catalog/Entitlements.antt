-- ===== src/Common/Catalog/Entitlements.antt =====
-- libs/common/src/billing/stripe-catalog.ts: the loop over the lines of a subscription against a
-- description that looks at all lines at once.
use nestjs_saas.Prelude.{
  ℕ, ◌+◌, ◌*◌, ◌≤◌, Option, none, some, Bool, true, false, List, [], ◌∷◌, ltb, if◌then◌else◌, ◌≡◌,
  refl, arith, Option-cases, inl, inr, ◌||◌,
}
use nestjs_saas.Js.Number.{ℤ, nat_max}
use nestjs_saas.Common.Tiers.{SubscriptionTier, free, tier_rank, tier_eq}
use nestjs_saas.Common.Catalog.{
  no_lines, Catalog, TierPrice, SubscriptionLine, Totals, tier_by_price, whole_quantity, add_line,
  add_lines, resolve_subscription_entitlements,
}

-- The seats and the tier that each line is worth, if the catalog lists its price.
abbrev pub worth : Catalog → SubscriptionLine → Option TierPrice
worth catalog line = tier_by_price catalog line.price_id

abbrev higher : SubscriptionTier → SubscriptionTier → SubscriptionTier
higher a b = if ltb (tier_rank a) (tier_rank b) then b else a

-- The highest tier among `t` and the lines that the catalog lists.
pub highest : Catalog → List SubscriptionLine → SubscriptionTier → SubscriptionTier
highest catalog [] t = t
highest catalog (line ∷ lines) t = elim (worth catalog line) [
  | none ↦ highest catalog lines t
  | some def ↦ highest catalog lines (higher t def.tier)
]

-- The seats of the lines of one tier.
pub seats_of : Catalog → SubscriptionTier → List SubscriptionLine → ℕ
seats_of catalog t [] = 0
seats_of catalog t (line ∷ lines) = elim (worth catalog line) [
  | none ↦ seats_of catalog t lines
  | some def ↦
      (if tier_eq def.tier t then def.included_learner_seats * whole_quantity line.quantity else 0)
      + seats_of catalog t lines
]

pub any_listed : Catalog → List SubscriptionLine → Bool
any_listed catalog [] = false
any_listed catalog (line ∷ lines) = elim (worth catalog line) [
  | none ↦ any_listed catalog lines
  | some def ↦ true
]

highest-ge :
    (catalog : Catalog) (lines : List SubscriptionLine) (t : SubscriptionTier)
    → tier_rank t ≤ tier_rank (highest catalog lines t)
unfolding highest
highest-ge catalog [] t = omega arith
highest-ge catalog (line ∷ lines) t = elim (Option-cases (worth catalog line)) [
  | inl e ↦ rw (e, highest) (highest-ge catalog lines t)
  | inr (def, e) ↦ rw (e, highest) (ground (arith, highest-ge catalog lines (higher t def.tier)))
]

add_line-tier :
    (def : TierPrice) (quantity : Option ℤ) (t : Totals)
    → ((add_line def quantity t).tier ≡ higher t.tier def.tier)
      × ((add_line def quantity t).saw_tier_line ≡ true)
unfolding add_line
add_line-tier def quantity t = ground arith

-- One round of the loop, with `h` the tier that wins at the end.
add_line-seats :
    (def : TierPrice) (quantity : Option ℤ) (t : Totals) (h : SubscriptionTier)
    → tier_rank (higher t.tier def.tier) ≤ tier_rank h
    → (if tier_eq (higher t.tier def.tier) h then (add_line def quantity t).bundled_seats else 0)
      ≡ (if tier_eq t.tier h then t.bundled_seats else 0)
        + (if tier_eq def.tier h then def.included_learner_seats * whole_quantity quantity else 0)
unfolding add_line
add_line-seats def quantity t h le = ground arith

record IsTotal (catalog : Catalog) (lines : List SubscriptionLine) (t u : Totals) : Type 0 where
  tier : u.tier ≡ highest catalog lines t.tier
  saw : u.saw_tier_line ≡ t.saw_tier_line || any_listed catalog lines
  seats :
      u.bundled_seats
      ≡ (if tier_eq t.tier (highest catalog lines t.tier) then t.bundled_seats else 0)
        + seats_of catalog (highest catalog lines t.tier) lines

add_lines-IsTotal :
    (catalog : Catalog) (lines : List SubscriptionLine) (t : Totals)
    → IsTotal catalog lines t (add_lines catalog lines t)
unfolding add_lines highest any_listed seats_of
add_lines-IsTotal catalog [] t = record { tier = refl; saw = ground arith; seats = ground arith }
add_lines-IsTotal catalog (line ∷ lines) t = elim (Option-cases (worth catalog line)) [
  | inl e ↦ ground (arith, add_lines-IsTotal catalog lines t)
  | inr (def, e) ↦
      let t' = add_line def line.quantity t in
      ground (
        arith,
        add_lines-IsTotal catalog lines t',
        add_line-tier def line.quantity t,
        highest-ge catalog lines (higher t.tier def.tier),
        add_line-seats def line.quantity t (highest catalog lines (higher t.tier def.tier)),
      )
]

-- The entitlements of a subscription: if the catalog lists the price of any line, the tier is the
-- highest among the listed lines and the seats are the sum over the lines of that tier, at least
-- 1; otherwise the tier is FREE and no seats are given.
pub resolve_subscription_entitlements-highest :
    (lines : List SubscriptionLine) (catalog : Catalog)
    → resolve_subscription_entitlements lines catalog ≡ (
        if any_listed catalog lines
        then (
          highest catalog lines free,
          some (nat_max 1 (seats_of catalog (highest catalog lines free) lines)),
        )
        else (free, none))
unfolding resolve_subscription_entitlements
resolve_subscription_entitlements-highest lines catalog =
    ground (arith, add_lines-IsTotal catalog lines no_lines)
