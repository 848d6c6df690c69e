-- ===== src/Auth/Sessions/Outcome.antt =====
-- apps/auth-org-service/src/auth-org-service.service.ts: what a successful `refreshSession` or
-- `login` has seen and written, for the proofs about them.
use nestjs_saas.Prelude.{
  ℕ, ◌<◌, String, Option, some, false, ◌≡◌, refl, sym, subst, ◌==◌, or_default, lt_of_leb,
}
use nestjs_saas.Exec.{ok, or_throw-eq-ok, throw_if-eq-ok, gets-eq, modify-eq, pure-eq-ok}
use nestjs_saas.Prisma.{Prisma}
use nestjs_saas.Js.Text.{trim}
use nestjs_saas.Auth.State.{
  Tenant, User, RefreshToken, Db, Env, Crypto, same_refresh_token, access_ttl_sec,
}
use nestjs_saas.Auth.Sessions.{
  RefreshInputs, Session, is_live, issued, payload_of, session_of, revoke, refresh_session,
}

module _ (prisma : Prisma) (env : Env) (crypto : Crypto) where
  pub record Refreshes (token : Option String) (inputs : RefreshInputs) (db : Db) (r : Session)
      (db' : Db) : Type 0 where
    pub given : (trim (or_default token "") == "") ≡ false
    pub session : RefreshToken
    pub user : User
    pub tenant : Tenant
    pub found :
        prisma.find_first
          (is_live (crypto.sha256_hex (trim (or_default token ""))))
          db.refresh_tokens
        ≡ some session
    pub owner : prisma.find_first (λ u. u.id == session.user_id) db.users ≡ some user
    pub of_tenant : prisma.find_first (λ t. t.id == user.tenant_id) db.tenants ≡ some tenant
    pub in_time : inputs.checked_at < session.expires_at
    pub access : String
    pub signed :
        crypto.sign (payload_of prisma env crypto user tenant) (access_ttl_sec env) ≡ some access
    pub expires_at : ℕ
    pub tokens :
        let token =
          issued prisma env crypto inputs.row_id session.user_id session.tenant_id inputs.raw_token
            expires_at in
        prisma.create
          (same_refresh_token token)
          token
          (prisma.update_many
            (λ t. t.id == session.id)
            (revoke prisma env crypto inputs.revoked_at)
            db.refresh_tokens).1
        ≡ some db'.refresh_tokens
    pub users : db'.users ≡ db.users
    pub tenants : db'.tenants ≡ db.tenants
    pub memberships : db'.memberships ≡ db.memberships
    pub invites : db'.invites ≡ db.invites
    pub result :
        r
        ≡ session_of prisma env crypto
            (payload_of prisma env crypto user tenant)
            access
            inputs.raw_token
            expires_at

  pub refresh_session-Refreshes :
      (token : Option String) (inputs : RefreshInputs) (db : Db) (r : Session) (db' : Db)
      → refresh_session prisma env crypto token inputs db ≡ (ok r, db')
      → Refreshes token inputs db r db'
  unfolding refresh_session
  refresh_session-Refreshes token inputs db r db' e =
      let (given, e1) = throw_if-eq-ok _ _ _ db e in
      let (session, found, e2) = or_throw-eq-ok _ _ _ db (gets-eq _ _ db e1) in
      let (user, owner, e3) = or_throw-eq-ok _ _ _ db e2 in
      let (tenant, of_tenant, e4) = or_throw-eq-ok _ _ _ db e3 in
      let (in_time, e5) = throw_if-eq-ok _ _ _ db e4 in
      let (expires_at, dated, e6) = or_throw-eq-ok _ _ _ _ (modify-eq _ _ db e5) in
      let (tokens, created, e7) = or_throw-eq-ok _ _ _ _ (gets-eq _ _ _ e6) in
      let (access, signed, e8) = or_throw-eq-ok _ _ _ _ (modify-eq _ _ _ e7) in
      let (result, same) = pure-eq-ok _ _ e8 in
      subst (λ d. Refreshes token inputs db r d) same
        (record {
          given = given;
          session = session;
          user = user;
          tenant = tenant;
          found = found;
          owner = owner;
          of_tenant = of_tenant;
          in_time = lt_of_leb _ _ in_time;
          access = access;
          signed = signed;
          expires_at = expires_at;
          tokens = created;
          users = refl;
          tenants = refl;
          memberships = refl;
          invites = refl;
          result = sym result;
        })
