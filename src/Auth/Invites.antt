-- ===== src/Auth/Invites.antt =====
-- apps/auth-org-service/src/auth-org-service.service.ts: invites, from `createInvite` and
-- `acceptInvite` to the hourly `cleanupExpiredInvites`.
pub mod Roles
pub mod SingleUse
pub mod Outcome
use nestjs_saas.Prelude.{
  ℕ, ◌+◌, ◌*◌, String, Option, none, some, true, not, ◌&&◌, ◌||◌, ltb, if◌then◌else◌, ◌==◌,
  or_default, is_some, is_none,
}
use nestjs_saas.Exec.{
  prisma_error, Result, ok, Action, pure, gets, lift, or_throw, ◌>>=◌, ◌>>◌, throw_if, modify,
  bad_request, forbidden, not_found, conflict,
}
use nestjs_saas.Prisma.{Prisma}
use nestjs_saas.Js.Text.{trim, str_length}
use nestjs_saas.Common.Roles.{Role, learner, role_eq, can_assign_role}
use nestjs_saas.Common.Seats.{activate_learner_invite}
use nestjs_saas.Js.Text.{without}
use nestjs_saas.Auth.State.{
  User, Membership, Invite, Db, Env, Crypto, same_user, same_membership, same_invite,
}
use nestjs_saas.Auth.Domains.{normalize_email, ensure_domain_allowed}
use nestjs_saas.Auth.Tenants.{trimmed_or_null}
use nestjs_saas.Auth.Seats.{assert_seat_capacity_for_new_active_learner}

pub record CreateInvite : Type 0 where
  pub tenant_id : String
  pub invited_by_user_id : String
  pub email : String
  pub role : Role
  pub expires_in_days : Option ℕ

-- The clock, the id of the row, the UUID behind the token, and what the mail server answers.
pub record InviteInputs : Type 0 where
  pub now : ℕ
  pub invite_id : String
  pub uuid : String
  pub delivery : Result (Unit {0})

pub record AcceptInvite : Type 0 where
  pub token : String
  pub display_name : Option String
  pub password : String

-- The readings of the clock in their order, the id of the new user and the salt.
pub record AcceptInputs : Type 0 where
  pub checked_at : ℕ
  pub seats_at : ℕ
  pub activated_at : ℕ
  pub active_at : ℕ
  pub used_at : ℕ
  pub user_id : String
  pub salt : String

pub record AcceptedInvite : Type 0 where
  pub tenant_id : String
  pub user_id : String
  pub email : String
  pub role : Role

abbrev set_value : Option String → String
set_value none = ""
set_value (some raw) = trim raw

-- Without a mail server the invite's link is only logged.
unfoldable pub dispatch_invite_email : Env → Result (Unit {0}) → Result (Unit {0})
unfolding trim
dispatch_invite_email env delivery =
    if (set_value env.smtp_host == "")
      || (set_value env.smtp_user == "")
      || (set_value env.smtp_pass == "")
    then ok tt
    else delivery

abbrev pub new_invite : CreateInvite → InviteInputs → String → ℕ → Invite
new_invite payload inputs email days = record {
  id = inputs.invite_id;
  tenant_id = payload.tenant_id;
  email = email;
  role = payload.role;
  token = without b'-' inputs.uuid;
  expires_at = inputs.now + days * 24 * 60 * 60 * 1000;
  used_at = none;
  invited_by_user_id = payload.invited_by_user_id;
}

module _ (prisma : Prisma) (env : Env) where
  unfoldable pub create_invite : CreateInvite → InviteInputs → Action Db Invite
  unfolding normalize_email dispatch_invite_email without
  create_invite payload inputs =
      let email = normalize_email payload.email in
      let days = or_default payload.expires_in_days 7 in
      do
        throw_if ((payload.invited_by_user_id == "") || (email == ""))
            (bad_request "invitedByUserId and email are required")
        throw_if (ltb days 1 || ltb 30 days) (bad_request "expiresInDays must be between 1 and 30")
        db ← gets (λ db. db)
        throw_if
            (is_some (
              prisma.find_first (λ u. (u.tenant_id == payload.tenant_id) && (u.email == email))
                db.users))
            (conflict "User already exists in this tenant")
        inviter ←
            or_throw
              (prisma.find_first
                (λ u. (u.id == payload.invited_by_user_id) && (u.tenant_id == payload.tenant_id))
                db.users)
              (not_found "Inviter not found")
        throw_if (not (can_assign_role inviter.role payload.role))
            (forbidden "You cannot assign this role")
        tenant ←
            or_throw (prisma.find_first (λ t. t.id == payload.tenant_id) db.tenants)
              (not_found "Tenant not found")
        lift (ensure_domain_allowed tenant.allowed_domains email)
        let invite = new_invite payload inputs email days
        invites ←
            or_throw (prisma.create (same_invite invite) invite db.invites) (prisma_error "P2002")
        modify (λ db. record db { invites = invites })
        lift (dispatch_invite_email env inputs.delivery)
        pure invite

module _ (prisma : Prisma) (env : Env) (crypto : Crypto) where
  -- Only the seat of a learner is checked.
  unfoldable pub seats_for : Invite → ℕ → Action Db (Unit {0})
  unfolding assert_seat_capacity_for_new_active_learner
  seats_for invite now =
      if role_eq invite.role learner
      then (assert_seat_capacity_for_new_active_learner prisma env invite.tenant_id
            activate_learner_invite now
          >>= λ _. pure tt)
      else pure tt

  abbrev pub invited_user : AcceptInvite → AcceptInputs → Invite → User
  invited_user payload inputs invite = record {
    id = inputs.user_id;
    tenant_id = invite.tenant_id;
    email = normalize_email invite.email;
    display_name = trimmed_or_null payload.display_name;
    password_hash = crypto.hash inputs.salt (trim payload.password);
    last_login_at = none;
    role = invite.role;
  }

  abbrev pub invited_membership : AcceptInputs → Invite → Membership
  invited_membership inputs invite = record {
    tenant_id = invite.tenant_id;
    user_id = inputs.user_id;
    is_active = true;
    activated_at = some inputs.activated_at;
    last_seat_qualifying_activity_at =
        if role_eq invite.role learner then some inputs.active_at else none;
    counts_toward_learner_seats = role_eq invite.role learner;
  }

  -- The first half: the invite, if it may be accepted.
  unfoldable pub open_invite : AcceptInvite → ℕ → Action Db Invite
  open_invite payload checked_at = do
    throw_if ((payload.password == "") || ltb (str_length (trim payload.password)) 8)
        (bad_request "password must be at least 8 characters")
    db ← gets (λ db. db)
    invite ←
        or_throw (prisma.find_first (λ i. i.token == payload.token) db.invites)
          (not_found "Invite not found")
    throw_if (is_some invite.used_at) (conflict "Invite already used")
    throw_if (ltb invite.expires_at checked_at) (conflict "Invite expired")
    tenant ←
        or_throw (prisma.find_first (λ t. t.id == invite.tenant_id) db.tenants)
          (not_found "Tenant not found")
    lift (ensure_domain_allowed tenant.allowed_domains invite.email)
    pure invite

  -- The second half: the rows that are written.
  unfoldable pub admit : AcceptInvite → AcceptInputs → Invite → Action Db AcceptedInvite
  admit payload inputs invite = do
    db ← gets (λ db. db)
    let user = invited_user payload inputs invite
    users ← or_throw (prisma.create (same_user user) user db.users) (prisma_error "P2002")
    modify (λ db. record db { users = users })
    let membership = invited_membership inputs invite
    memberships ←
        or_throw (prisma.create (same_membership membership) membership db.memberships)
          (prisma_error "P2002")
    modify (λ db. record db { memberships = memberships })
    modify (λ db. record db {
      invites =
          (prisma.update_many (λ i. i.id == invite.id)
            (λ i. record i { used_at = some inputs.used_at }) db.invites).1;
    })
    pure (record {
      tenant_id = invite.tenant_id;
      user_id = user.id;
      email = user.email;
      role = user.role;
    })

  unfoldable pub accept_invite : AcceptInvite → AcceptInputs → Action Db AcceptedInvite
  accept_invite payload inputs = do
    invite ← open_invite payload inputs.checked_at
    seats_for invite inputs.seats_at
    admit payload inputs invite

-- An invite that nobody used in time. The result counts the rows for the log.
unfoldable pub cleanup_expired_invites : Prisma → ℕ → Action Db ℕ
cleanup_expired_invites prisma now db =
    let (count, invites) =
      prisma.delete_many (λ i. is_none i.used_at && ltb i.expires_at now) db.invites in
    (ok count, record db { invites = invites })
