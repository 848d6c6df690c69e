-- ===== src/Auth/State.antt =====
-- apps/auth-org-service: the tables of prisma/schema.prisma as far as the service reads them, the
-- configuration, and the libraries for passwords and tokens. Times are milliseconds.
use nestjs_saas.Prelude.{
  ℕ, String, Option, none, some, Bool, true, ◌&&◌, ◌||◌, List, if◌then◌else◌, ◌≡◌, ◌==◌, or_default,
  is_some,
}
use nestjs_saas.Js.Text.{trim}
use nestjs_saas.Js.Number.{math_max, nat_max, parse_int}
use nestjs_saas.Common.Roles.{Role}
use nestjs_saas.Common.Tiers.{SubscriptionTier}
use nestjs_saas.Common.Seats.{day_ms}

-- `updated_at` is written by the client on every update of the row.
pub record Tenant : Type 0 where
  pub id : String
  pub updated_at : ℕ
  pub name : String
  pub subscription_tier : SubscriptionTier
  pub allowed_domains : List String
  pub stripe_customer_id : Option String
  pub stripe_subscription_id : Option String
  pub included_learner_seats : Option ℕ
  pub seat_billing_period_days : ℕ

pub record User : Type 0 where
  pub id : String
  pub tenant_id : String
  pub email : String
  pub display_name : Option String
  pub password_hash : String
  pub last_login_at : Option ℕ
  pub role : Role

pub record Membership : Type 0 where
  pub tenant_id : String
  pub user_id : String
  pub is_active : Bool
  pub activated_at : Option ℕ
  pub last_seat_qualifying_activity_at : Option ℕ
  pub counts_toward_learner_seats : Bool

pub record RefreshToken : Type 0 where
  pub id : String
  pub user_id : String
  pub tenant_id : String
  pub token_hash : String
  pub expires_at : ℕ
  pub revoked_at : Option ℕ

pub record Invite : Type 0 where
  pub id : String
  pub tenant_id : String
  pub email : String
  pub role : Role
  pub token : String
  pub expires_at : ℕ
  pub used_at : Option ℕ
  pub invited_by_user_id : String

pub record StripeWebhookEvent : Type 0 where
  pub stripe_event_id : String
  pub event_type : String
  pub created_at : ℕ
  pub updated_at : ℕ
  pub processed_at : Option ℕ
  pub handling_error : Option String

pub record Db : Type 0 where
  pub tenants : List Tenant
  pub users : List User
  pub memberships : List Membership
  pub refresh_tokens : List RefreshToken
  pub invites : List Invite
  pub stripe_webhook_events : List StripeWebhookEvent

-- The unique keys of the schema: does a row that is there clash with the new one?
abbrev pub same_tenant : Tenant → Tenant → Bool
same_tenant new old = (old.id == new.id) || (old.name == new.name)

abbrev pub same_user : User → User → Bool
same_user new old =
    (old.id == new.id) || ((old.tenant_id == new.tenant_id) && (old.email == new.email))

abbrev pub same_membership : Membership → Membership → Bool
same_membership new old = (old.tenant_id == new.tenant_id) && (old.user_id == new.user_id)

abbrev pub same_refresh_token : RefreshToken → RefreshToken → Bool
same_refresh_token new old = (old.id == new.id) || (old.token_hash == new.token_hash)

abbrev pub same_invite : Invite → Invite → Bool
same_invite new old = (old.id == new.id) || (old.token == new.token)

-- What the service reads of its environment. `refresh_ttl_days_ms` is `JWT_REFRESH_TTL_DAYS`
-- (30 if unset) in milliseconds, rounded, 0 where it is negative and `none` where it is not finite.
pub record Env : Type 0 where
  pub free_included_learner_seats : Option String
  pub seat_grace_days : Option String
  pub jwt_access_ttl_sec : Option String
  pub refresh_ttl_days_ms : Option ℕ
  pub smtp_host : Option String
  pub smtp_user : Option String
  pub smtp_pass : Option String

-- A variable that may be unset or blank, with a default for those and for NaN.
abbrev read_int : ℕ → ℕ → String → ℕ
read_int unset least raw =
    if raw == "" then unset else elim (parse_int raw) [ none ↦ unset | some n ↦ math_max least n ]

unfoldable pub free_tier_seat_limit : Env → ℕ
unfolding parse_int trim
free_tier_seat_limit env = read_int 3 1 (trim (or_default env.free_included_learner_seats ""))

unfoldable pub seat_grace_days : Env → ℕ
unfolding parse_int trim
seat_grace_days env = read_int 0 0 (trim (or_default env.seat_grace_days ""))

-- `Math.max(60, parseInt(…))`, which is NaN (`none`) where the variable holds no number.
unfoldable pub access_ttl_sec : Env → Option ℕ
unfolding parse_int
access_ttl_sec env = elim (parse_int (or_default env.jwt_access_ttl_sec "900")) [
  | none ↦ none
  | some n ↦ some (math_max 60 n)
]

unfoldable pub refresh_ttl_ms : Env → Option ℕ
refresh_ttl_ms env = elim env.refresh_ttl_days_ms [
  | none ↦ none
  | some ms ↦ some (nat_max day_ms ms)
]

pub record TokenPayload : Type 0 where
  pub user_id : String
  pub tenant_id : String
  pub role : Role
  pub subscription_tier : SubscriptionTier

-- bcryptjs, node:crypto and the JWT service. `hash salt password` is a hash under a random salt.
-- `signAsync` rejects (`none`) an `expiresIn` that is no number, and takes a whole number of seconds.
pub record Crypto : Type 0 where
  pub hash : String → String → String
  pub compare : String → String → Bool
  pub compare-hash : (salt password : String) → compare password (hash salt password) ≡ true
  pub sha256_hex : String → String
  pub sign : TokenPayload → Option ℕ → Option String
  pub sign_seconds : (payload : TokenPayload) (n : ℕ) → is_some (sign payload (some n)) ≡ true

-- Each time limit that is a default or read from the environment stays above its floor.
