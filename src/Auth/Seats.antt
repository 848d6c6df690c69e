-- ===== src/Auth/Seats.antt =====
-- apps/auth-org-service/src/auth-org-service.service.ts: how many learner seats are in use, and
-- whether one more learner may be activated.
pub mod Policy
pub mod Capacity
use nestjs_saas.Prelude.{
  ℕ, ◌+◌, ◌-◌, ◌*◌, String, Option, none, some, Bool, true, false, ◌&&◌, List, ltb, leb,
  if◌then◌else◌, ◌==◌, or_default, is_some, exists,
}
use nestjs_saas.Exec.{
  Result, ok, err, Action, gets, lift, or_throw, ◌>>=◌, ◌>>◌, throw_if, bad_request, forbidden,
  not_found,
}
use nestjs_saas.Prisma.{Prisma}
use nestjs_saas.Js.Text.{trim, decimal}
use nestjs_saas.Common.Roles.{learner, role_eq}
use nestjs_saas.Common.Seats.{SeatEnforcementReason, reason_text, normalize_seat_enforcement_reason}
use Prim.Native.String.{◌++◌ as str_append}
use nestjs_saas.Auth.State.{
  Tenant, User, Membership, Db, Env, free_tier_seat_limit, seat_grace_days,
}

-- The condition of the `membership.count` query; `user: { role: LEARNER }` looks the user up.
abbrev pub is_learner_row : List User → String → Bool
is_learner_row users user_id = exists (λ u. (u.id == user_id) && role_eq u.role learner) users

abbrev pub since : ℕ → Option ℕ → Bool
since threshold none = false
since threshold (some last) = leb threshold last

abbrev pub seat_threshold : Tenant → ℕ → ℕ
seat_threshold tenant now = now - tenant.seat_billing_period_days * 24 * 60 * 60 * 1000

unfoldable pub counts_as_seat : Tenant → List User → ℕ → Membership → Bool
counts_as_seat tenant users now m =
    (m.tenant_id == tenant.id)
    && m.is_active
    && m.counts_toward_learner_seats
    && since (seat_threshold tenant now) m.last_seat_qualifying_activity_at
    && is_learner_row users m.user_id

pub record SeatCheck : Type 0 where
  pub active_learner_seats : ℕ
  pub included_learner_seats : ℕ
  pub grace_applied : Bool
  pub grace_until : Option ℕ

abbrev seat_limit_message : ℕ → ℕ → SeatEnforcementReason → String
seat_limit_message active included reason = str_append "Seat limit reached: " (
    str_append (decimal active) (
      str_append "/" (
        str_append (decimal included) (
          str_append " active learner seats in use. Cannot "
            (str_append (reason_text reason) ".")))))

abbrev pub included_seats : Env → Tenant → ℕ
included_seats env tenant = or_default tenant.included_learner_seats (free_tier_seat_limit env)

module _ (prisma : Prisma) (env : Env) where
  unfoldable pub active_learner_seats : Db → Tenant → ℕ → ℕ
  active_learner_seats db tenant now =
      prisma.count (counts_as_seat tenant db.users now) db.memberships

  -- After the tenant is found: room, grace or refusal.
  unfoldable pub check_seats : Db → Tenant → SeatEnforcementReason → ℕ → Result SeatCheck
  check_seats db tenant reason now =
      let active = active_learner_seats db tenant now in
      let included = included_seats env tenant in
      let grace_until = tenant.updated_at + seat_grace_days env * 24 * 60 * 60 * 1000 in
      if ltb active included
      then ok (record {
        active_learner_seats = active;
        included_learner_seats = included;
        grace_applied = false;
        grace_until = none;
      })
      else if ltb 0 (seat_grace_days env)
          && is_some tenant.stripe_subscription_id
          && leb now grace_until
      then ok (record {
        active_learner_seats = active;
        included_learner_seats = included;
        grace_applied = true;
        grace_until = some grace_until;
      })
      else err (forbidden (seat_limit_message active included reason))

  unfoldable pub assert_seat_capacity_for_new_active_learner :
      String → SeatEnforcementReason → ℕ → Action Db SeatCheck
  assert_seat_capacity_for_new_active_learner tenant_id reason now = do
    db ← gets (λ db. db)
    tenant ←
        or_throw (prisma.find_first (λ t. t.id == tenant_id) db.tenants)
          (not_found "Tenant not found")
    lift (check_seats db tenant reason now)

  -- `tenantId` and `reason` may be missing from the payload.
  unfoldable pub assert_seat_available : Option String → Option String → ℕ → Action Db SeatCheck
  assert_seat_available tenant_id reason now =
      let id = trim (or_default tenant_id "") in
      do
        throw_if (id == "") (bad_request "tenantId is required")
        assert_seat_capacity_for_new_active_learner id (normalize_seat_enforcement_reason reason)
            now
