-- ===== src/Auth/Invites/Roles.antt =====
-- apps/auth-org-service/src/auth-org-service.service.ts: no call makes a super administrator.
use nestjs_saas.Prelude.{
  ℕ, some, Bool, false, not, List, [], ◌∷◌, if◌then◌else◌, ◌≡◌, ◌≢◌, refl, ◌∙◌, arith, All,
}
use nestjs_saas.Exec.{ok, ◌>>=◌}
use nestjs_saas.Prisma.{Prisma}
use nestjs_saas.Common.Roles.{Role, super_admin, can_assign_role}
use nestjs_saas.Exec.Keeps.{
  after_throw_if, after_modify, after_pure, after_or_throw, after_lift, after_gets, after_call,
}
use nestjs_saas.Prisma.Rows.{created, All-update_many, All-find_first}
use nestjs_saas.Auth.State.{User, Invite, Db, Env, Crypto}
use nestjs_saas.Auth.Seats.{assert_seat_capacity_for_new_active_learner}
use nestjs_saas.Auth.Invites.Outcome.{open_invite-Opened}
use nestjs_saas.Auth.Invites.{
  CreateInvite, InviteInputs, AcceptInvite, AcceptInputs, create_invite, open_invite, seats_for,
  admit, accept_invite,
}

pub record NoSuperAdmin (db : Db) : Type 0 where
  pub users : All (λ u. u.role ≢ super_admin) db.users
  pub invites : All (λ i. i.role ≢ super_admin) db.invites

assignable :
    (actor target : Role)
    → actor ≢ super_admin
    → not (can_assign_role actor target) ≡ false
    → target ≢ super_admin
unfolding can_assign_role
assignable actor target h e = ground arith

pub with_user :
    (db : Db) (user : User) (users : List User)
    → NoSuperAdmin db
    → user.role ≢ super_admin
    → users ≡ user ∷ db.users
    → NoSuperAdmin (record db { users = users })
with_user db user users h new e = record { users = rw e (new, h.users); invites = h.invites }

with_invite :
    (db : Db) (invite : Invite) (invites : List Invite)
    → NoSuperAdmin db
    → invite.role ≢ super_admin
    → invites ≡ invite ∷ db.invites
    → NoSuperAdmin (record db { invites = invites })
with_invite db invite invites h new e = record { users = h.users; invites = rw e (new, h.invites) }

pub roles_kept {ℓ} :
    {R : Type ℓ} (role : R → Role) (test : R → Bool) (change : R → R) (rows : List R)
    → ((r : R) → role (change r) ≡ role r)
    → All (λ r. role r ≢ super_admin) rows
    → All (λ r. role (if test r then change r else r) ≢ super_admin) rows
roles_kept role test change [] same h = tt
roles_kept role test change (r ∷ rows) same h =
    (ground (arith, same r, h.0), roles_kept role test change rows same h.1)

module _ (prisma : Prisma) (env : Env) (crypto : Crypto) where
  pub create_invite-NoSuperAdmin :
      (payload : CreateInvite) (inputs : InviteInputs) (db : Db)
      → NoSuperAdmin db
      → NoSuperAdmin (create_invite prisma env payload inputs db).1
  unfolding create_invite
  create_invite-NoSuperAdmin payload inputs db h = after_throw_if NoSuperAdmin _ _ _ db h λ _.
      after_throw_if NoSuperAdmin _ _ _ db h λ _. after_gets NoSuperAdmin _ _ db (
        after_throw_if NoSuperAdmin _ _ _ db h λ _.
          after_or_throw NoSuperAdmin _ _ _ db h λ inviter found.
            after_throw_if NoSuperAdmin _ _ _ db h λ may_assign.
              after_or_throw NoSuperAdmin _ _ _ db h λ tenant _.
                after_lift NoSuperAdmin _ _ db h λ _ _.
                  after_or_throw NoSuperAdmin _ _ _ db h λ invites made.
                    let inviter_role =
                      All-find_first prisma (λ u. u.role ≢ super_admin) _ db.users inviter h.users
                        found in
                    let h' =
                      with_invite db _ invites h
                        (assignable inviter.role payload.role inviter_role may_assign)
                        (created prisma _ _ db.invites made).0 in
                    after_modify NoSuperAdmin _ _ db
                      (after_lift NoSuperAdmin _ _ _ h' λ _ _. after_pure NoSuperAdmin _ _ h'))

  admit-NoSuperAdmin :
      (payload : AcceptInvite) (inputs : AcceptInputs) (invite : Invite) (db : Db)
      → invite.role ≢ super_admin
      → NoSuperAdmin db
      → NoSuperAdmin (admit prisma env crypto payload inputs invite db).1
  unfolding admit
  admit-NoSuperAdmin payload inputs invite db role h = after_gets NoSuperAdmin _ _ db (
      after_or_throw NoSuperAdmin _ _ _ db h λ users made.
        let h' = with_user db _ users h role (created prisma _ _ db.users made).0 in
        after_modify NoSuperAdmin _ _ db (
          after_or_throw NoSuperAdmin _ _ _ _ h' λ memberships _. after_modify NoSuperAdmin _ _ _ (
            after_modify NoSuperAdmin _ _ _ (
              after_pure NoSuperAdmin _ _ (record {
                users = h'.users;
                invites =
                    All-update_many prisma (λ i. i.role ≢ super_admin) _ _ db.invites
                      (roles_kept (λ i. i.role) _ (λ i. record i { used_at = some inputs.used_at })
                        db.invites (λ i. refl) h.invites);
              })))))

  open_invite-same :
      (payload : AcceptInvite) (at : ℕ) (db : Db)
      → (open_invite prisma env crypto payload at db).1 ≡ db
  unfolding open_invite
  open_invite-same payload at db =
      let P : Db → Type 0 = λ d. d ≡ db in
      after_throw_if P _ _ _ db refl λ _. after_gets P _ _ db (
        after_or_throw P _ _ _ db refl λ _ _. after_throw_if P _ _ _ db refl λ _.
          after_throw_if P _ _ _ db refl λ _.
            after_or_throw P _ _ _ db refl
              λ _ _. after_lift P _ _ db refl λ _ _. after_pure P _ _ refl)

  seats_for-same :
      (invite : Invite) (now : ℕ) (db : Db) → (seats_for prisma env crypto invite now db).1 ≡ db
  unfolding ◌>>=◌ seats_for assert_seat_capacity_for_new_active_learner
  seats_for-same invite now db = ground arith

  pub accept_invite-NoSuperAdmin :
      (payload : AcceptInvite) (inputs : AcceptInputs) (db : Db)
      → NoSuperAdmin db
      → NoSuperAdmin (accept_invite prisma env crypto payload inputs db).1
  unfolding accept_invite
  accept_invite-NoSuperAdmin payload inputs db h =
      let opened = open_invite-same payload inputs.checked_at db in
      after_call NoSuperAdmin _ _ db (rw opened h) λ invite found.
        let whole : open_invite prisma env crypto payload inputs.checked_at db ≡ (ok invite, db) =
          ground (arith, found, opened) in
        let o = open_invite-Opened prisma env crypto payload inputs.checked_at db invite db whole in
        let role =
          All-find_first prisma (λ i. i.role ≢ super_admin) _ db.invites invite h.invites o.found in
        let seated = seats_for-same invite inputs.seats_at _ ∙ opened in
        after_call NoSuperAdmin _ _ _ (rw seated h)
          λ _ _. rw seated (admit-NoSuperAdmin payload inputs invite db role h)
