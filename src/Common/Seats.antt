-- ===== src/Common/Seats.antt =====
-- libs/common/src/billing/seat-policy.ts: what an active learner seat is, and the reasons for a
-- seat check. Times are milliseconds since the epoch.
use nestjs_saas.Prelude.{
  ℕ, ◌-◌, ◌*◌, String, ◌==◌, Option, none, some, Bool, false, not, ◌||◌, leb, if◌then◌else◌,
}
use nestjs_saas.Js.Text.{trim, to_lower_case}
use nestjs_saas.Common.Roles.{Role, learner, role_eq}

abbrev pub day_ms : ℕ
day_ms = 24 * 60 * 60 * 1000

pub record SeatPolicyInput : Type 0 where
  pub role : Role
  pub membership_active : Bool
  pub counts_toward_learner_seats : Bool
  pub last_seat_qualifying_activity_at : Option ℕ
  pub seat_billing_period_days : ℕ

abbrev recent : Option ℕ → ℕ → ℕ → Bool
recent none period now = false
recent (some last) period now = leb (now - last) (period * 24 * 60 * 60 * 1000)

-- `now` is the argument, or the clock where the caller leaves it out.
unfoldable pub is_active_learner_seat : SeatPolicyInput → ℕ → Bool
is_active_learner_seat input now =
    if not (role_eq input.role learner)
      || not input.membership_active
      || not input.counts_toward_learner_seats
    then false
    else recent input.last_seat_qualifying_activity_at input.seat_billing_period_days now

pub data SeatEnforcementReason : Type 0 where
  activate_learner_invite create_enrollment reactivate_learner_membership : SeatEnforcementReason

abbrev pub reason_text : SeatEnforcementReason → String
reason_text activate_learner_invite = "activate learner invite"
reason_text create_enrollment = "create enrollment"
reason_text reactivate_learner_membership = "reactivate learner membership"

abbrev matching : String → SeatEnforcementReason
matching s =
    if reason_text activate_learner_invite == s
    then activate_learner_invite
    else if reason_text create_enrollment == s
    then create_enrollment
    else reactivate_learner_membership

unfoldable pub normalize_seat_enforcement_reason : Option String → SeatEnforcementReason
normalize_seat_enforcement_reason none = reactivate_learner_membership
normalize_seat_enforcement_reason (some value) = matching (to_lower_case (trim value))
