-- ===== src/Auth/Invites/Outcome.antt =====
-- apps/auth-org-service/src/auth-org-service.service.ts: what a successful `acceptInvite` has seen
-- and written, for the proofs about it.
use nestjs_saas.Prelude.{
  ℕ, ◌≤◌, none, some, ◌≡◌, sym, subst, arith, inl, inr, ◌==◌, none_of_is_some, le_of_ltb,
}
use nestjs_saas.Exec.{
  ok, ◌>>=◌, Result-cases, >>=-eq-ok, or_throw-eq-ok, lift-eq-ok, throw_if-eq-ok, gets-eq,
  pure-eq-ok,
}
use nestjs_saas.Prisma.{Prisma}
use nestjs_saas.Common.Roles.{learner}
use nestjs_saas.Common.Seats.{activate_learner_invite}
use nestjs_saas.Auth.State.{Tenant, Invite, Db, Env, Crypto, same_user, same_membership}
use nestjs_saas.Auth.Domains.{normalize_email, ensure_domain_allowed}
use nestjs_saas.Auth.Seats.{SeatCheck, check_seats, assert_seat_capacity_for_new_active_learner}
use nestjs_saas.Auth.Invites.{
  AcceptInvite, AcceptInputs, AcceptedInvite, invited_user, invited_membership, open_invite, admit,
  seats_for, accept_invite,
}

module _ (prisma : Prisma) (env : Env) (crypto : Crypto) where
  pub record Accepts (payload : AcceptInvite) (inputs : AcceptInputs) (db : Db) (r : AcceptedInvite)
      (db' : Db) : Type 0 where
    pub invite : Invite
    pub tenant : Tenant
    pub found : prisma.find_first (λ i. i.token == payload.token) db.invites ≡ some invite
    pub unused : invite.used_at ≡ none
    pub in_time : inputs.checked_at ≤ invite.expires_at
    pub of_tenant : prisma.find_first (λ t. t.id == invite.tenant_id) db.tenants ≡ some tenant
    pub allowed : ensure_domain_allowed tenant.allowed_domains invite.email ≡ ok tt
    pub has_seat :
        invite.role ≡ learner
        → (check : SeatCheck) × (check_seats prisma env db tenant activate_learner_invite
              inputs.seats_at
            ≡ ok check)
    pub users :
        prisma.create
          (same_user (invited_user prisma env crypto payload inputs invite))
          (invited_user prisma env crypto payload inputs invite)
          db.users
        ≡ some db'.users
    pub memberships :
        prisma.create
          (same_membership (invited_membership prisma env crypto inputs invite))
          (invited_membership prisma env crypto inputs invite)
          db.memberships
        ≡ some db'.memberships
    pub invites :
        db'.invites
        ≡ (prisma.update_many
            (λ i. i.id == invite.id)
            (λ i. record i { used_at = some inputs.used_at })
            db.invites).1
    pub tenants : db'.tenants ≡ db.tenants
    pub refresh_tokens : db'.refresh_tokens ≡ db.refresh_tokens
    pub result : r ≡ record {
      tenant_id = invite.tenant_id;
      user_id = inputs.user_id;
      email = normalize_email invite.email;
      role = invite.role;
    }

  pub record Opened (payload : AcceptInvite) (at : ℕ) (db : Db) (invite : Invite) (db' : Db)
      : Type 0 where
    pub tenant : Tenant
    pub found : prisma.find_first (λ i. i.token == payload.token) db.invites ≡ some invite
    pub unused : invite.used_at ≡ none
    pub in_time : at ≤ invite.expires_at
    pub of_tenant : prisma.find_first (λ t. t.id == invite.tenant_id) db.tenants ≡ some tenant
    pub allowed : ensure_domain_allowed tenant.allowed_domains invite.email ≡ ok tt
    pub same : db' ≡ db

  pub open_invite-Opened :
      (payload : AcceptInvite) (at : ℕ) (db : Db) (invite : Invite) (db' : Db)
      → open_invite prisma env crypto payload at db ≡ (ok invite, db')
      → Opened payload at db invite db'
  unfolding open_invite
  open_invite-Opened payload at db invite db' e =
      let (_, e1) = throw_if-eq-ok _ _ _ db e in
      let (i, found, e2) = or_throw-eq-ok _ _ _ db (gets-eq _ _ db e1) in
      let (unused, e3) = throw_if-eq-ok _ _ _ db e2 in
      let (in_time, e4) = throw_if-eq-ok _ _ _ db e3 in
      let (tenant, of_tenant, e5) = or_throw-eq-ok _ _ _ db e4 in
      let (_, allowed, e6) = lift-eq-ok _ _ db e5 in
      let (same, kept) = pure-eq-ok i db e6 in
      subst (λ v. Opened payload at db v db') same
        (record {
          tenant = tenant;
          found = found;
          unused = none_of_is_some i.used_at unused;
          in_time = le_of_ltb i.expires_at at in_time;
          of_tenant = of_tenant;
          allowed = allowed;
          same = sym kept;
        })

  seats_for-check :
      (invite : Invite) (tenant : Tenant) (now : ℕ) (db db' : Db)
      → prisma.find_first (λ t. t.id == invite.tenant_id) db.tenants ≡ some tenant
      → seats_for prisma env crypto invite now db ≡ (ok tt, db')
      → (invite.role ≡ learner
          → (check : SeatCheck) × (check_seats prisma env db tenant activate_learner_invite now
              ≡ ok check))
        × (db' ≡ db)
  unfolding ◌>>=◌ seats_for assert_seat_capacity_for_new_active_learner
  seats_for-check invite tenant now db db' found e = (
    λ l. elim (Result-cases (check_seats prisma env db tenant activate_learner_invite now)) [
      | inl seat ↦ seat
      | inr (refusal, refused) ↦ absurd (ground arith)
    ],
    ground arith,
  )

  record Admits (payload : AcceptInvite) (inputs : AcceptInputs) (db : Db) (invite : Invite)
      (r : AcceptedInvite) (db' : Db) : Type 0 where
    users :
        prisma.create
          (same_user (invited_user prisma env crypto payload inputs invite))
          (invited_user prisma env crypto payload inputs invite)
          db.users
        ≡ some db'.users
    memberships :
        prisma.create
          (same_membership (invited_membership prisma env crypto inputs invite))
          (invited_membership prisma env crypto inputs invite)
          db.memberships
        ≡ some db'.memberships
    invites :
        db'.invites
        ≡ (prisma.update_many
            (λ i. i.id == invite.id)
            (λ i. record i { used_at = some inputs.used_at })
            db.invites).1
    tenants : db'.tenants ≡ db.tenants
    refresh_tokens : db'.refresh_tokens ≡ db.refresh_tokens
    result : r ≡ record {
      tenant_id = invite.tenant_id;
      user_id = inputs.user_id;
      email = normalize_email invite.email;
      role = invite.role;
    }

  admit-Admits :
      (payload : AcceptInvite) (inputs : AcceptInputs) (db : Db) (invite : Invite)
      (r : AcceptedInvite) (db' : Db)
      → admit prisma env crypto payload inputs invite db ≡ (ok r, db')
      → Admits payload inputs db invite r db'
  unfolding ◌>>=◌ admit
  admit-Admits payload inputs db invite r db' e = ground arith

  Accepts-of_parts :
      (payload : AcceptInvite) (inputs : AcceptInputs) (db db1 db2 : Db) (invite : Invite)
      (r : AcceptedInvite) (db' : Db)
      → Opened payload inputs.checked_at db invite db1
      → seats_for prisma env crypto invite inputs.seats_at db1 ≡ (ok tt, db2)
      → admit prisma env crypto payload inputs invite db2 ≡ (ok r, db')
      → Accepts payload inputs db r db'
  Accepts-of_parts payload inputs db db1 db2 invite r db' o seated e =
      let (seat, same) =
        seats_for-check invite o.tenant inputs.seats_at db db2 o.of_tenant (rw o.same at seated) in
      let a = admit-Admits payload inputs db invite r db' (rw same at e) in
      record {
        invite = invite;
        tenant = o.tenant;
        found = o.found;
        unused = o.unused;
        in_time = o.in_time;
        of_tenant = o.of_tenant;
        allowed = o.allowed;
        has_seat = seat;
        users = a.users;
        memberships = a.memberships;
        invites = a.invites;
        tenants = a.tenants;
        refresh_tokens = a.refresh_tokens;
        result = a.result;
      }

  pub accept_invite-Accepts :
      (payload : AcceptInvite) (inputs : AcceptInputs) (db : Db) (r : AcceptedInvite) (db' : Db)
      → accept_invite prisma env crypto payload inputs db ≡ (ok r, db')
      → Accepts payload inputs db r db'
  unfolding accept_invite
  accept_invite-Accepts payload inputs db r db' e =
      let (invite, db1, opened, e1) =
        >>=-eq-ok (open_invite prisma env crypto payload inputs.checked_at) _ db e in
      let (_, db2, seated, e2) =
        >>=-eq-ok (seats_for prisma env crypto invite inputs.seats_at) _ db1 e1 in
      Accepts-of_parts payload inputs db db1 db2 invite r db'
        (open_invite-Opened payload inputs.checked_at db invite db1 opened) seated e2
