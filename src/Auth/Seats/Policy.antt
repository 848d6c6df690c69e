-- ===== src/Auth/Seats/Policy.antt =====
-- apps/auth-org-service/src/auth-org-service.service.ts against libs/common/src/billing: the seat
-- query counts what the shared policy calls an active learner seat.
use nestjs_saas.Prelude.{ℕ, Bool, true, false, ◌&&◌, List, [], ◌∷◌, ◌≡◌, refl, arith, ◌==◌, exists}
use nestjs_saas.Common.Roles.{learner, role_eq}
use nestjs_saas.Common.Seats.{SeatPolicyInput, is_active_learner_seat}
use nestjs_saas.Auth.State.{Tenant, User, Membership}
use nestjs_saas.Auth.Seats.{counts_as_seat, seat_threshold, since}

abbrev pub policy_input : Tenant → User → Membership → SeatPolicyInput
policy_input tenant u m = record {
  role = u.role;
  membership_active = m.is_active;
  counts_toward_learner_seats = m.counts_toward_learner_seats;
  last_seat_qualifying_activity_at = m.last_seat_qualifying_activity_at;
  seat_billing_period_days = tenant.seat_billing_period_days;
}

-- For one user the policy is the role test and the window, as the query writes it.
policy-window :
    (tenant : Tenant) (u : User) (m : Membership) (now : ℕ)
    → is_active_learner_seat (policy_input tenant u m) now ≡ (
        role_eq u.role learner
        && (m.is_active
            && m.counts_toward_learner_seats
            && since (seat_threshold tenant now) m.last_seat_qualifying_activity_at))
unfolding is_active_learner_seat
policy-window tenant u m now = ground arith

exists-and :
    (f : User → Bool) (p : User → Bool) (q : User → Bool) (b : Bool) (us : List User)
    → ((u : User) → q u ≡ (p u && b))
    → (b && exists (λ u. f u && p u) us) ≡ exists (λ u. f u && q u) us
exists-and f p q true [] h = refl
exists-and f p q false [] h = refl
exists-and f p q b (u ∷ us) h = ground (arith, h u, exists-and f p q b us h)

-- The query counts a membership exactly if it is the tenant's and belongs to a user for whom the
-- shared policy finds an active learner seat at that time.
pub counts_as_seat-is_active_learner_seat :
    (tenant : Tenant) (users : List User) (now : ℕ) (m : Membership)
    → counts_as_seat tenant users now m ≡ (
        (m.tenant_id == tenant.id)
        && exists
            (λ u. (u.id == m.user_id) && is_active_learner_seat (policy_input tenant u m) now)
            users)
unfolding counts_as_seat
counts_as_seat-is_active_learner_seat tenant users now m = ground (
  arith,
  exists-and (λ u. u.id == m.user_id) (λ u. role_eq u.role learner)
      (λ u. is_active_learner_seat (policy_input tenant u m) now)
      (m.is_active
        && m.counts_toward_learner_seats
        && since (seat_threshold tenant now) m.last_seat_qualifying_activity_at)
      users (λ u. policy-window tenant u m now),
)
