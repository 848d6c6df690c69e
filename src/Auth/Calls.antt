-- ===== src/Auth/Calls.antt =====
-- apps/auth-org-service/src/auth-org-service.service.ts: the service as a machine whose steps are
-- the calls of its methods and of its two timers, in any order and with any arguments.
use nestjs_saas.Prelude.{ℕ, String, Option, some, List, [], ◌∷◌, ◌≡◌, ◌≢◌, refl, arith, ◌==◌}
use nestjs_saas.Exec.{◌>>=◌}
use nestjs_saas.Prisma.{Prisma}
use nestjs_saas.Common.Roles.{super_admin}
use nestjs_saas.Exec.Keeps.{
  after_throw_if, after_modify, after_pure, after_or_throw, after_lift, after_gets,
}
use nestjs_saas.Prisma.Rows.{created, All-update_many, All-delete_many}
use nestjs_saas.Auth.State.{Db, Env, Crypto}
use nestjs_saas.Auth.Seats.{assert_seat_capacity_for_new_active_learner, assert_seat_available}
use nestjs_saas.Auth.Tenants.{RegisterTenant, RegisterInputs, register_tenant}
use nestjs_saas.Auth.Invites.{
  CreateInvite, InviteInputs, AcceptInvite, AcceptInputs, create_invite, accept_invite,
  cleanup_expired_invites,
}
use nestjs_saas.Auth.Invites.Roles.{
  NoSuperAdmin, with_user, roles_kept, create_invite-NoSuperAdmin, accept_invite-NoSuperAdmin,
}
use nestjs_saas.Auth.Sessions.{
  Login, LoginInputs, RefreshInputs, login, refresh_session, logout_session, logout_all_sessions,
  cleanup_stale_refresh_tokens,
}

pub data Call : Type 0 where
  registers : RegisterTenant → RegisterInputs → Call
  invites : CreateInvite → InviteInputs → Call
  accepts : AcceptInvite → AcceptInputs → Call
  logs_in : Login → LoginInputs → Call
  refreshes : Option String → RefreshInputs → Call
  logs_out : Option String → ℕ → Call
  logs_out_everywhere : Option String → Option String → ℕ → Call
  asks_for_seat : Option String → Option String → ℕ → Call
  drops_invites : ℕ → Call
  drops_tokens : ℕ → ℕ → Call

module _ (prisma : Prisma) (env : Env) (crypto : Crypto) where
  -- A call may throw; what it wrote before stays.
  unfoldable pub step : Db → Call → Db
  step db (registers payload inputs) = (register_tenant prisma crypto payload inputs db).1
  step db (invites payload inputs) = (create_invite prisma env payload inputs db).1
  step db (accepts payload inputs) = (accept_invite prisma env crypto payload inputs db).1
  step db (logs_in payload inputs) = (login prisma env crypto payload inputs db).1
  step db (refreshes token inputs) = (refresh_session prisma env crypto token inputs db).1
  step db (logs_out token now) = (logout_session prisma env crypto token now db).1
  step db (logs_out_everywhere uid tid now) =
      (logout_all_sessions prisma env crypto uid tid now db).1
  step db (asks_for_seat tid reason now) = (assert_seat_available prisma env tid reason now db).1
  step db (drops_invites now) = (cleanup_expired_invites prisma now db).1
  step db (drops_tokens cutoff now) = (cleanup_stale_refresh_tokens prisma cutoff now db).1

  pub run : Db → List Call → Db
  run db [] = db
  run db (c ∷ cs) = run (step db c) cs

  register_tenant-NoSuperAdmin :
      (payload : RegisterTenant) (inputs : RegisterInputs) (db : Db)
      → NoSuperAdmin db
      → NoSuperAdmin (register_tenant prisma crypto payload inputs db).1
  unfolding register_tenant
  register_tenant-NoSuperAdmin payload inputs db h = after_throw_if NoSuperAdmin _ _ _ db h λ _.
      after_throw_if NoSuperAdmin _ _ _ db h λ _. after_lift NoSuperAdmin _ _ db h λ _ _.
        after_gets NoSuperAdmin _ _ db (
          after_throw_if NoSuperAdmin _ _ _ db h λ _.
            after_or_throw NoSuperAdmin _ _ _ db h λ tenants _.
              let h1 : NoSuperAdmin (record db { tenants = tenants }) = record {
                users = h.users;
                invites = h.invites;
              } in
              after_modify NoSuperAdmin _ _ db (
                after_or_throw NoSuperAdmin _ _ _ _ h1 λ users made.
                  let h2 =
                    with_user (record db { tenants = tenants }) _ users h1 (λ e. cc)
                      (created prisma _ _ db.users made).0 in
                  after_modify NoSuperAdmin _ _ _ (
                    after_or_throw NoSuperAdmin _ _ _ _ h2 λ memberships _.
                      after_modify NoSuperAdmin _ _ _ (
                        after_pure NoSuperAdmin _ _
                          (record { users = h2.users; invites = h2.invites })))))

  login-NoSuperAdmin :
      (payload : Login) (inputs : LoginInputs) (db : Db)
      → NoSuperAdmin db
      → NoSuperAdmin (login prisma env crypto payload inputs db).1
  unfolding login
  login-NoSuperAdmin payload inputs db h = after_throw_if NoSuperAdmin _ _ _ db h λ _.
      after_gets NoSuperAdmin _ _ db (
        after_or_throw NoSuperAdmin _ _ _ db h λ user _.
          after_or_throw NoSuperAdmin _ _ _ db h λ tenant _.
            after_throw_if NoSuperAdmin _ _ _ db h λ _.
              let users =
                All-update_many prisma (λ u. u.role ≢ super_admin) _ _ db.users
                  (roles_kept (λ u. u.role) (λ u. u.id == user.id)
                    (λ u. record u { last_login_at = some inputs.login_at }) db.users (λ u. refl)
                    h.users) in
              after_modify NoSuperAdmin _ _ db (
                after_modify NoSuperAdmin _ _ _ (
                  after_or_throw NoSuperAdmin _ _ _ _
                    (record { users = users; invites = h.invites })
                    λ expires_at _.
                      after_or_throw NoSuperAdmin _ _ _ _
                        (record { users = users; invites = h.invites })
                        λ tokens _. after_modify NoSuperAdmin _ _ _ (
                          after_or_throw NoSuperAdmin _ _ _ _
                            (record { users = users; invites = h.invites })
                            λ access _.
                              after_pure NoSuperAdmin _ _
                                (record { users = users; invites = h.invites })))))

  refresh_session-NoSuperAdmin :
      (token : Option String) (inputs : RefreshInputs) (db : Db)
      → NoSuperAdmin db
      → NoSuperAdmin (refresh_session prisma env crypto token inputs db).1
  unfolding refresh_session
  refresh_session-NoSuperAdmin token inputs db h = after_throw_if NoSuperAdmin _ _ _ db h λ _.
      after_gets NoSuperAdmin _ _ db (
        after_or_throw NoSuperAdmin _ _ _ db h λ session _.
          after_or_throw NoSuperAdmin _ _ _ db h λ user _.
            after_or_throw NoSuperAdmin _ _ _ db h λ tenant _.
              after_throw_if NoSuperAdmin _ _ _ db h λ _. after_modify NoSuperAdmin _ _ db (
                after_or_throw NoSuperAdmin _ _ _ _
                  (record { users = h.users; invites = h.invites })
                  λ expires_at _. after_gets NoSuperAdmin _ _ _ (
                    after_or_throw NoSuperAdmin _ _ _ _
                      (record { users = h.users; invites = h.invites })
                      λ tokens _. after_modify NoSuperAdmin _ _ _ (
                        after_or_throw NoSuperAdmin _ _ _ _
                          (record { users = h.users; invites = h.invites })
                          λ access _.
                            after_pure NoSuperAdmin _ _
                              (record { users = h.users; invites = h.invites })))))

  -- The calls that touch neither users nor invites, and the clean-up of invites.
  logout_session-NoSuperAdmin :
      (token : Option String) (now : ℕ) (db : Db)
      → NoSuperAdmin db
      → NoSuperAdmin (logout_session prisma env crypto token now db).1
  unfolding ◌>>=◌ logout_session
  logout_session-NoSuperAdmin token now db h = ground (arith, h.users, h.invites)

  logout_all_sessions-NoSuperAdmin :
      (uid tid : Option String) (now : ℕ) (db : Db)
      → NoSuperAdmin db
      → NoSuperAdmin (logout_all_sessions prisma env crypto uid tid now db).1
  unfolding ◌>>=◌ logout_all_sessions
  logout_all_sessions-NoSuperAdmin uid tid now db h = ground (arith, h.users, h.invites)

  assert_seat_available-same :
      (tid reason : Option String) (now : ℕ) (db : Db)
      → (assert_seat_available prisma env tid reason now db).1 ≡ db
  unfolding ◌>>=◌ assert_seat_available assert_seat_capacity_for_new_active_learner
  assert_seat_available-same tid reason now db = ground arith

  step-NoSuperAdmin : (db : Db) (c : Call) → NoSuperAdmin db → NoSuperAdmin (step db c)
  unfolding step cleanup_expired_invites cleanup_stale_refresh_tokens
  step-NoSuperAdmin db (registers payload inputs) h =
      register_tenant-NoSuperAdmin payload inputs db h
  step-NoSuperAdmin db (invites payload inputs) h =
      create_invite-NoSuperAdmin prisma env crypto payload inputs db h
  step-NoSuperAdmin db (accepts payload inputs) h =
      accept_invite-NoSuperAdmin prisma env crypto payload inputs db h
  step-NoSuperAdmin db (logs_in payload inputs) h = login-NoSuperAdmin payload inputs db h
  step-NoSuperAdmin db (refreshes token inputs) h = refresh_session-NoSuperAdmin token inputs db h
  step-NoSuperAdmin db (logs_out token now) h = logout_session-NoSuperAdmin token now db h
  step-NoSuperAdmin db (logs_out_everywhere uid tid now) h =
      logout_all_sessions-NoSuperAdmin uid tid now db h
  step-NoSuperAdmin db (asks_for_seat tid reason now) h =
      rw (assert_seat_available-same tid reason now db) h
  step-NoSuperAdmin db (drops_invites now) h = record {
    users = h.users;
    invites = All-delete_many prisma (λ i. i.role ≢ super_admin) _ db.invites h.invites;
  }
  step-NoSuperAdmin db (drops_tokens cutoff now) h = record { users = h.users; invites = h.invites }

  -- From a database without super administrators, and without invites for one, no sequence of
  -- calls leads to a database with one, or with an invite for one.
  pub run-NoSuperAdmin : (db : Db) (cs : List Call) → NoSuperAdmin db → NoSuperAdmin (run db cs)
  unfolding run
  run-NoSuperAdmin db [] h = h
  run-NoSuperAdmin db (c ∷ cs) h = run-NoSuperAdmin (step db c) cs (step-NoSuperAdmin db c h)
