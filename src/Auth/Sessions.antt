-- ===== src/Auth/Sessions.antt =====
-- apps/auth-org-service/src/auth-org-service.service.ts: `login`, `refreshSession`,
-- `logoutSession`, `logoutAllSessions` and the daily `cleanupStaleRefreshTokens`.
pub mod Outcome
pub mod Rotation
pub mod Credentials
use nestjs_saas.Prelude.{
  ℕ, ◌+◌, ◌-◌, ◌*◌, String, Option, none, some, Bool, false, not, ◌&&◌, ◌||◌, ltb, leb, ◌==◌,
  or_default, is_none,
}
use nestjs_saas.Exec.{
  prisma_error, plain_error, ok, Action, pure, gets, or_throw, ◌>>=◌, ◌>>◌, throw_if, modify,
  bad_request, unauthorized,
}
use nestjs_saas.Prisma.{Prisma}
use nestjs_saas.Js.Text.{trim}
use nestjs_saas.Auth.State.{
  Tenant, User, RefreshToken, Db, Env, Crypto, TokenPayload, access_ttl_sec, refresh_ttl_ms,
  same_refresh_token,
}
use nestjs_saas.Auth.Domains.{normalize_email}

pub record Login : Type 0 where
  pub tenant_id : Option String
  pub email : String
  pub password : Option String

-- The readings of the clock, the opaque token and the id of its row.
pub record LoginInputs : Type 0 where
  pub login_at : ℕ
  pub active_at : ℕ
  pub issued_at : ℕ
  pub raw_token : String
  pub row_id : String

pub record RefreshInputs : Type 0 where
  pub checked_at : ℕ
  pub revoked_at : ℕ
  pub issued_at : ℕ
  pub raw_token : String
  pub row_id : String

pub record Session : Type 0 where
  pub access_token : String
  pub refresh_token : String
  pub access_expires_in : Option ℕ
  pub refresh_expires_at : ℕ
  pub user : TokenPayload

-- `where: { tokenHash, revokedAt: null }`
abbrev pub is_live : String → RefreshToken → Bool
is_live token_hash t = (t.token_hash == token_hash) && is_none t.revoked_at

module _ (prisma : Prisma) (env : Env) (crypto : Crypto) where
  -- `new Date(Date.now() + this.refreshTtlMs())`, `none` for a date that is invalid
  abbrev pub refresh_expiry : ℕ → Option ℕ
  refresh_expiry now = elim (refresh_ttl_ms env) [ none ↦ none | some ms ↦ some (now + ms) ]

  abbrev pub issued : String → String → String → String → ℕ → RefreshToken
  issued row_id user_id tenant_id raw expires_at = record {
    id = row_id;
    user_id = user_id;
    tenant_id = tenant_id;
    token_hash = crypto.sha256_hex raw;
    expires_at = expires_at;
    revoked_at = none;
  }

  abbrev pub payload_of : User → Tenant → TokenPayload
  payload_of user tenant = record {
    user_id = user.id;
    tenant_id = user.tenant_id;
    role = user.role;
    subscription_tier = tenant.subscription_tier;
  }

  abbrev pub session_of : TokenPayload → String → String → ℕ → Session
  session_of payload access raw expires_at = record {
    access_token = access;
    refresh_token = raw;
    access_expires_in = access_ttl_sec env;
    refresh_expires_at = expires_at;
    user = payload;
  }

  -- The access token; the errors of `signAsync` and of Prisma for an invalid date are named by what
  -- they say first.
  abbrev pub sign_access : TokenPayload → Action Db String
  sign_access payload =
      or_throw (crypto.sign payload (access_ttl_sec env)) (
        plain_error "\"expiresIn\" should be a number of seconds or string representing a timespan")

  abbrev pub expiry : ℕ → Action Db ℕ
  expiry now = or_throw (refresh_expiry now) (plain_error "Invalid value for argument `expiresAt`")

  -- `tenant: { select: … }` of a query for a user; the foreign key keeps the row there.
  abbrev pub tenant_of : Db → User → Action Db Tenant
  tenant_of db user =
      or_throw (prisma.find_first (λ t. t.id == user.tenant_id) db.tenants)
        (plain_error "Inconsistent query result")

  unfoldable pub login : Login → LoginInputs → Action Db Session
  unfolding normalize_email
  login payload inputs =
      let tenant_id = trim (or_default payload.tenant_id "") in
      let email = normalize_email payload.email in
      let password = or_default payload.password "" in
      do
        throw_if ((tenant_id == "") || (email == "") || (password == ""))
            (bad_request "tenantId, email, and password are required")
        db ← gets (λ db. db)
        user ←
            or_throw
              (prisma.find_first (λ u. (u.tenant_id == tenant_id) && (u.email == email)) db.users)
              (unauthorized "Invalid credentials")
        tenant ← tenant_of db user
        throw_if (not (crypto.compare password user.password_hash))
            (unauthorized "Invalid credentials")
        modify (λ db. record db {
          users =
              (prisma.update_many (λ u. u.id == user.id)
                (λ u. record u { last_login_at = some inputs.login_at }) db.users).1;
        })
        modify (λ db. record db {
          memberships =
              (prisma.update_many (λ m. (m.tenant_id == user.tenant_id) && (m.user_id == user.id))
                (λ m. record m { last_seat_qualifying_activity_at = some inputs.active_at })
                db.memberships).1;
        })
        expires_at ← expiry inputs.issued_at
        let token = issued inputs.row_id user.id user.tenant_id inputs.raw_token expires_at
        tokens ←
            or_throw (prisma.create (same_refresh_token token) token db.refresh_tokens)
              (prisma_error "P2002")
        modify (λ db. record db { refresh_tokens = tokens })
        access ← sign_access (payload_of user tenant)
        pure (session_of (payload_of user tenant) access inputs.raw_token expires_at)

  abbrev pub revoke : ℕ → RefreshToken → RefreshToken
  revoke now t = record t { revoked_at = some now }

  unfoldable pub refresh_session : Option String → RefreshInputs → Action Db Session
  refresh_session refresh_token inputs =
      let raw = trim (or_default refresh_token "") in
      do
        throw_if (raw == "") (bad_request "refreshToken is required")
        db ← gets (λ db. db)
        session ←
            or_throw (prisma.find_first (is_live (crypto.sha256_hex raw)) db.refresh_tokens)
              (unauthorized "Invalid or expired refresh token")
        user ←
            or_throw (prisma.find_first (λ u. u.id == session.user_id) db.users)
              (plain_error "Inconsistent query result")
        tenant ← tenant_of db user
        throw_if (leb session.expires_at inputs.checked_at)
            (unauthorized "Invalid or expired refresh token")
        modify (λ db. record db {
          refresh_tokens =
              (prisma.update_many (λ t. t.id == session.id) (revoke inputs.revoked_at)
                db.refresh_tokens).1;
        })
        expires_at ← expiry inputs.issued_at
        let token =
            issued inputs.row_id session.user_id session.tenant_id inputs.raw_token expires_at
        revoked ← gets (λ db. db)
        tokens ←
            or_throw (prisma.create (same_refresh_token token) token revoked.refresh_tokens)
              (prisma_error "P2002")
        modify (λ db. record db { refresh_tokens = tokens })
        access ← sign_access (payload_of user tenant)
        pure (session_of (payload_of user tenant) access inputs.raw_token expires_at)

  unfoldable pub logout_session : Option String → ℕ → Action Db (Unit {0})
  logout_session refresh_token now =
      let raw = trim (or_default refresh_token "") in
      do
        throw_if (raw == "") (bad_request "refreshToken is required")
        db ← gets (λ db. db)
        elim (prisma.find_first (is_live (crypto.sha256_hex raw)) db.refresh_tokens) [
          | none ↦ pure tt
          | some session ↦ modify (λ db. record db {
            refresh_tokens =
                (prisma.update_many (λ t. t.id == session.id) (revoke now) db.refresh_tokens).1;
          })
        ]

  unfoldable pub logout_all_sessions : Option String → Option String → ℕ → Action Db (Unit {0})
  logout_all_sessions user_id tenant_id now =
      let uid = trim (or_default user_id "") in
      let tid = trim (or_default tenant_id "") in
      do
        throw_if ((uid == "") || (tid == "")) (bad_request "userId and tenantId are required")
        modify (λ db. record db {
          refresh_tokens =
              (prisma.update_many
                (λ t. (t.user_id == uid) && (t.tenant_id == tid) && is_none t.revoked_at)
                (revoke now) db.refresh_tokens).1;
        })

abbrev pub before : ℕ → Option ℕ → Bool
before time none = false
before time (some t) = ltb t time

-- Tokens that ran out, and those revoked more than 14 days ago.
unfoldable pub cleanup_stale_refresh_tokens : Prisma → ℕ → ℕ → Action Db ℕ
cleanup_stale_refresh_tokens prisma cutoff_now now db =
    let cutoff = cutoff_now - 14 * 86400000 in
    let (count, tokens) =
      prisma.delete_many (λ t. ltb t.expires_at now || before cutoff t.revoked_at)
        db.refresh_tokens in
    (ok count, record db { refresh_tokens = tokens })
