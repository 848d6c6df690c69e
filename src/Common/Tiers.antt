-- ===== src/Common/Tiers.antt =====
-- libs/common/src/subscription/subscription-tier.ts: the tiers and their course limits.
use nestjs_saas.Prelude.{ℕ, String, Option, none, some, Bool, nat_eq, if◌then◌else◌, ◌≡◌, refl}
use nestjs_saas.Js.Text.{decimal}
use Prim.Native.String.{◌++◌}

pub data SubscriptionTier : Type 0 where
  free pro enterprise : SubscriptionTier

-- `TIER_RANK` of libs/common/src/billing/stripe-catalog.ts
abbrev pub tier_rank : SubscriptionTier → ℕ
tier_rank free = 0
tier_rank pro = 1
tier_rank enterprise = 2

-- `a === b`
abbrev pub tier_eq : SubscriptionTier → SubscriptionTier → Bool
tier_eq a b = nat_eq (tier_rank a) (tier_rank b)

abbrev pub max_courses_for_subscription_tier : SubscriptionTier → Option ℕ
max_courses_for_subscription_tier free = some 3
max_courses_for_subscription_tier pro = some 100
max_courses_for_subscription_tier enterprise = none

abbrev tier_label : SubscriptionTier → String
tier_label tier =
    if tier_eq tier free then "Free" else if tier_eq tier pro then "Pro" else "Enterprise"

unfoldable pub subscription_tier_course_limit_message : SubscriptionTier → ℕ → String
unfolding decimal
subscription_tier_course_limit_message tier limit =
    "Your "
    ++ tier_label tier
    ++ " plan allows at most "
    ++ decimal limit
    ++ " course"
    ++ (if nat_eq limit 1 then "" else "s")
    ++ ". Upgrade your subscription to create more."

message_test :
    subscription_tier_course_limit_message free 3
    ≡ "Your Free plan allows at most 3 courses. Upgrade your subscription to create more."
unfolding subscription_tier_course_limit_message
message_test = refl
