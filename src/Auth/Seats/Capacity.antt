-- ===== src/Auth/Seats/Capacity.antt =====
-- apps/auth-org-service/src/auth-org-service.service.ts: a learner who accepts an invite stays
-- within the seats of the tenant.
use nestjs_saas.Prelude.{
  ℕ, suc, ◌≤◌, ◌<◌, some, Bool, true, List, [], ◌∷◌, ◌≡◌, ◌≢◌, subst, arith, ◌==◌, eq_iff, All,
  length, keep,
}
use nestjs_saas.Exec.{ok}
use nestjs_saas.Prisma.{Prisma}
use nestjs_saas.Common.Roles.{learner}
use nestjs_saas.Common.Seats.{SeatEnforcementReason, activate_learner_invite}
use nestjs_saas.Prisma.Rows.{created}
use nestjs_saas.Auth.State.{Tenant, User, Membership, Db, Env, Crypto, seat_grace_days}
use nestjs_saas.Auth.Seats.{
  SeatCheck, check_seats, counts_as_seat, active_learner_seats, included_seats,
}
use nestjs_saas.Auth.Invites.{
  AcceptInvite, AcceptInputs, AcceptedInvite, accept_invite, invited_user, invited_membership,
}
use nestjs_saas.Auth.Invites.Outcome.{Accepts, accept_invite-Accepts}

length-keep_mono {ℓ} :
    {A : Type ℓ} (p q : A → Bool) (xs : List A)
    → All (λ x. p x ≡ true → q x ≡ true) xs
    → length (keep p xs) ≤ length (keep q xs)
length-keep_mono p q [] h = omega arith
length-keep_mono p q (x ∷ xs) h = ground (arith, h.0, length-keep_mono p q xs h.1)

-- A membership of somebody else that counts later, with one more user, counted before.
counted_before :
    (tenant : Tenant) (u : User) (users : List User) (then_ now : ℕ) (m : Membership)
    → then_ ≤ now
    → m.user_id ≢ u.id
    → counts_as_seat tenant (u ∷ users) now m ≡ true
    → counts_as_seat tenant users then_ m ≡ true
unfolding counts_as_seat
counted_before tenant u users then_ now m le other h = ground (arith, eq_iff u.id m.user_id)

counted_before-All :
    (tenant : Tenant) (u : User) (users : List User) (then_ now : ℕ) (ms : List Membership)
    → then_ ≤ now
    → All (λ m. m.user_id ≢ u.id) ms
    → All
        (λ m.
          counts_as_seat tenant (u ∷ users) now m ≡ true
          → counts_as_seat tenant users then_ m ≡ true)
        ms
counted_before-All tenant u users then_ now [] le h = tt
counted_before-All tenant u users then_ now (m ∷ ms) le h = (
  counted_before tenant u users then_ now m le h.0,
  counted_before-All tenant u users then_ now ms le h.1,
)

module _ (prisma : Prisma) (env : Env) (crypto : Crypto) where
  -- Without a grace period a check passes only while there is room.
  room_of_check :
      (db : Db) (tenant : Tenant) (reason : SeatEnforcementReason) (now : ℕ) (check : SeatCheck)
      → seat_grace_days env ≡ 0
      → check_seats prisma env db tenant reason now ≡ ok check
      → active_learner_seats prisma env db tenant now < included_seats env tenant
  unfolding check_seats
  room_of_check db tenant reason now check no_grace e = ground arith

  -- One more user and one more membership add one seat at most.
  seats_after :
      (db db' : Db) (tenant : Tenant) (u : User) (m : Membership) (then_ now : ℕ)
      → db'.users ≡ u ∷ db.users
      → db'.memberships ≡ m ∷ db.memberships
      → then_ ≤ now
      → All (λ m. m.user_id ≢ u.id) db.memberships
      → active_learner_seats prisma env db' tenant now
        ≤ suc (active_learner_seats prisma env db tenant then_)
  unfolding active_learner_seats
  seats_after db db' tenant u m then_ now pu pm le fresh =
      simp (prisma.count_lem, pu, pm)
        (ground (
          arith,
          length-keep_mono (counts_as_seat tenant (u ∷ db.users) now)
              (counts_as_seat tenant db.users then_) db.memberships
              (counted_before-All tenant u db.users then_ now db.memberships le fresh),
        ))

  within :
      (payload : AcceptInvite) (inputs : AcceptInputs) (db db' : Db) (r : AcceptedInvite) (now : ℕ)
      (a : Accepts prisma env crypto payload inputs db r db')
      → a.invite.role ≡ learner
      → seat_grace_days env ≡ 0
      → All (λ m. m.user_id ≢ inputs.user_id) db.memberships
      → inputs.seats_at ≤ now
      → active_learner_seats prisma env db' a.tenant now ≤ included_seats env a.tenant
  within payload inputs db db' r now a is_learner no_grace fresh later =
      let (check, passed) = a.has_seat is_learner in
      let room =
        room_of_check db a.tenant activate_learner_invite inputs.seats_at check no_grace passed in
      omega (
        arith,
        seats_after db db' a.tenant (invited_user prisma env crypto payload inputs a.invite)
            (invited_membership prisma env crypto inputs a.invite) inputs.seats_at now
            (created prisma _ _ db.users a.users).0
            (created prisma _ _ db.memberships a.memberships).0 later fresh,
      )

  -- Without a grace period, and with an id for the new user that no membership has: when an
  -- invited learner has been admitted, the tenant's active learner seats are within the seats
  -- included in its plan, at the time of the seat check and at every later time.
  pub accept_invite_within_seats :
      (payload : AcceptInvite) (inputs : AcceptInputs) (db db' : Db) (r : AcceptedInvite)
      (tenant : Tenant) (now : ℕ)
      → accept_invite prisma env crypto payload inputs db ≡ (ok r, db')
      → r.role ≡ learner
      → prisma.find_first (λ t. t.id == r.tenant_id) db.tenants ≡ some tenant
      → seat_grace_days env ≡ 0
      → All (λ m. m.user_id ≢ inputs.user_id) db.memberships
      → inputs.seats_at ≤ now
      → active_learner_seats prisma env db' tenant now ≤ included_seats env tenant
  accept_invite_within_seats payload inputs db db' r tenant now e is_learner found no_grace fresh
        later =
      let a = accept_invite-Accepts prisma env crypto payload inputs db r db' e in
      let same : a.tenant ≡ tenant = ground (arith, a.result, a.of_tenant) in
      subst (λ t. active_learner_seats prisma env db' t now ≤ included_seats env t) same
        (within payload inputs db db' r now a (ground (arith, a.result)) no_grace fresh later)
