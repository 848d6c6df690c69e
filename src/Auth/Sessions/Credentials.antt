-- ===== src/Auth/Sessions/Credentials.antt =====
-- apps/auth-org-service/src/auth-org-service.service.ts: `login` and the credentials that an
-- account was made with.
use nestjs_saas.Prelude.{
  ℕ, ◌+◌, String, Option, none, some, Bool, true, false, ◌&&◌, ◌||◌, Memᴰ, ◌⊎◌, inl, inr,
  Bool-cases, Option-cases, List, [], ◌∷◌, ◌≡◌, ◌≢◌, refl, subst, arith, ◌==◌, eq_iff, or_default,
  is_some, All,
}
use nestjs_saas.Exec.{Error, ok, err, ◌>>=◌, bad_request, unauthorized, plain_error}
use nestjs_saas.Prisma.{Prisma}
use nestjs_saas.Js.Text.{trim}
use nestjs_saas.Prisma.Rows.{created, find_first_only, create_free}
use nestjs_saas.Auth.State.{
  Tenant, User, RefreshToken, Db, Env, Crypto, same_user, same_refresh_token, access_ttl_sec,
  refresh_ttl_ms,
}
use nestjs_saas.Auth.Domains.{normalize_email}
use nestjs_saas.Auth.Invites.{
  AcceptInvite, AcceptInputs, AcceptedInvite, accept_invite, invited_user,
}
use nestjs_saas.Auth.Invites.Outcome.{accept_invite-Accepts}
use nestjs_saas.Auth.Sessions.{Login, LoginInputs, Session, issued, payload_of, session_of, login}

module _ (prisma : Prisma) (env : Env) (crypto : Crypto) where
  abbrev by_email : String → String → User → Bool
  by_email tenant_id email u = (u.tenant_id == tenant_id) && (u.email == email)

  abbrev user_query : Login → Db → Option User
  user_query payload db =
      prisma.find_first
        (by_email (trim (or_default payload.tenant_id "")) (normalize_email payload.email)) db.users

  pub record IsComplete (payload : Login) : Type 0 where
    pub tenant_id : trim (or_default payload.tenant_id "") ≢ ""
    pub email : normalize_email payload.email ≢ ""
    pub password : or_default payload.password "" ≢ ""

  -- A user of the tenant, with the address and the password of a login
  abbrev pub HasCredentials : Login → Db → Type 0
  HasCredentials payload db =
      (user : User) × Memᴰ user db.users
      × (user.tenant_id ≡ trim (or_default payload.tenant_id ""))
      × (user.email ≡ normalize_email payload.email)
      × (crypto.compare (or_default payload.password "") user.password_hash ≡ true)

  -- A login with anything but the credentials of a user is refused, and nothing is written: whatever
  -- is given and whatever is stored, `login` throws and leaves the tables as they were, or there is a
  -- user of the given tenant with the given address whose password hash the given password meets.
  pub login-HasCredentials :
      (payload : Login) (inputs : LoginInputs) (db : Db)
      → ((x : Error) × (login prisma env crypto payload inputs db ≡ (err x, db)))
        ⊎ HasCredentials payload db
  unfolding ◌>>=◌ login
  login-HasCredentials payload inputs db =
      let missing =
        (trim (or_default payload.tenant_id "") == "")
        || (normalize_email payload.email == "")
        || (or_default payload.password "" == "") in
      elim (Bool-cases missing) [
        | inl incomplete ↦
            inl (bad_request "tenantId, email, and password are required", ground arith)
        | inr complete ↦ elim (Option-cases (user_query payload db)) [
          | inl unknown ↦ inl (unauthorized "Invalid credentials", ground arith)
          | inr (user, found) ↦
              elim (Option-cases (prisma.find_first (λ t. t.id == user.tenant_id) db.tenants)) [
                | inl no_tenant ↦ inl (plain_error "Inconsistent query result", ground arith)
                | inr (tenant, of_tenant) ↦
                    elim (Bool-cases
                      (crypto.compare (or_default payload.password "") user.password_hash)) [
                        | inl right ↦
                            let (met, listed) = prisma.find_first_sound _ db.users user found in
                            inr (
                              user,
                              listed,
                              ground (
                                arith,
                                met,
                                eq_iff user.tenant_id (trim (or_default payload.tenant_id "")),
                              ),
                              ground
                                  (arith, met, eq_iff user.email (normalize_email payload.email)),
                              right,
                            )
                        | inr wrong ↦ inl (unauthorized "Invalid credentials", ground arith)
                      ]
              ]
        ]
      ]

  -- With the right credentials, settings that are numbers and a token that is new, a session for the
  -- user begins.
  login_returns :
      (payload : Login) (inputs : LoginInputs) (db : Db) (user : User) (tenant : Tenant)
      (ttl ms : ℕ) (access : String) (tokens : List RefreshToken)
      → IsComplete payload
      → user_query payload db ≡ some user
      → prisma.find_first (λ t. t.id == user.tenant_id) db.tenants ≡ some tenant
      → crypto.compare (or_default payload.password "") user.password_hash ≡ true
      → refresh_ttl_ms env ≡ some ms
      → access_ttl_sec env ≡ some ttl
      → crypto.sign (payload_of prisma env crypto user tenant) (some ttl) ≡ some access
      → let token =
          issued prisma env crypto inputs.row_id user.id user.tenant_id inputs.raw_token
            (inputs.issued_at + ms) in
        prisma.create (same_refresh_token token) token db.refresh_tokens ≡ some tokens
        → (login prisma env crypto payload inputs db).0
          ≡ ok (
              session_of prisma env crypto
                (payload_of prisma env crypto user tenant)
                access
                inputs.raw_token
                (inputs.issued_at + ms))
  unfolding ◌>>=◌ login
  login_returns payload inputs db user tenant ttl ms access tokens given found of_tenant right lasts
        short signed made =
      ground (
        arith,
        short,
        eq_iff (trim (or_default payload.tenant_id "")) "",
        eq_iff (normalize_email payload.email) "",
        eq_iff (or_default payload.password "") "",
      )

  eq_some : (o : Option String) → is_some o ≡ true → (t : String) × (o ≡ some t)
  eq_some none there = absurd (ground arith)
  eq_some (some t) there = (t, refl)

  only_by_email :
      (u : User) (users : List User) (tid email : String)
      → tid ≡ u.tenant_id
      → email ≡ u.email
      → All (λ x. same_user u x ≡ false) users
      → All (λ x. by_email tid email x ≡ false) users
  only_by_email u [] tid email p q h = tt
  only_by_email u (x ∷ users) tid email p q h = (
    ground (
      arith,
      h.0,
      eq_iff x.tenant_id tid,
      eq_iff x.email email,
      eq_iff x.tenant_id u.tenant_id,
      eq_iff x.email u.email,
    ),
    only_by_email u users tid email p q h.1,
  )

  -- Whoever has accepted an invite can log in at once: with the tenant, the address and the
  -- trimmed password of the acceptance, a refresh token that no row has, and settings of the times to
  -- live that are numbers, `login` returns a session of the new user with the invited role, which
  -- lasts as long as they say.
  pub accept_invite-login :
      (payload : AcceptInvite) (inputs : AcceptInputs) (db db' : Db) (r : AcceptedInvite)
      (l : Login) (li : LoginInputs) (ttl ms : ℕ)
      → access_ttl_sec env ≡ some ttl
      → refresh_ttl_ms env ≡ some ms
      → accept_invite prisma env crypto payload inputs db ≡ (ok r, db')
      → IsComplete l
      → trim (or_default l.tenant_id "") ≡ r.tenant_id
      → normalize_email l.email ≡ r.email
      → or_default l.password "" ≡ trim payload.password
      → All
          (λ t.
            same_refresh_token
              (issued prisma env crypto li.row_id r.user_id r.tenant_id li.raw_token
                (li.issued_at + ms))
              t
            ≡ false)
          db'.refresh_tokens
      → (s : Session) × ((login prisma env crypto l li db').0 ≡ ok s)
        × (s.user.user_id ≡ r.user_id)
        × (s.user.tenant_id ≡ r.tenant_id)
        × (s.user.role ≡ r.role)
        × (s.access_expires_in ≡ some ttl)
        × (s.refresh_expires_at ≡ li.issued_at + ms)
  accept_invite-login payload inputs db db' r l li ttl ms short lasts e given p q w new_token =
      let a = accept_invite-Accepts prisma env crypto payload inputs db r db' e in
      let u : User = invited_user prisma env crypto payload inputs a.invite in
      let (shape, apart) = created prisma _ u _ a.users in
      let tid : trim (or_default l.tenant_id "") ≡ u.tenant_id = ground (arith, a.result) in
      let mail : normalize_email l.email ≡ u.email = ground (arith, a.result) in
      let found : user_query l db' ≡ some u = rw shape (
        find_first_only prisma _ u db.users
          (ground (
            arith,
            eq_iff u.tenant_id (trim (or_default l.tenant_id "")),
            eq_iff u.email (normalize_email l.email),
          ))
          (only_by_email u db.users _ _ tid mail apart)) in
      let known : prisma.find_first (λ t. t.id == u.tenant_id) db'.tenants ≡ some a.tenant =
        rw a.tenants a.of_tenant in
      let right : crypto.compare (or_default l.password "") u.password_hash ≡ true =
        rw w (crypto.compare-hash inputs.salt (trim payload.password)) in
      let unused =
        subst
          (λ (v : AcceptedInvite).
            All
              (λ t.
                same_refresh_token
                  (issued prisma env crypto li.row_id v.user_id v.tenant_id li.raw_token
                    (li.issued_at + ms))
                  t
                ≡ false)
              db'.refresh_tokens)
          a.result new_token in
      let (access, signed) =
        eq_some (crypto.sign (payload_of prisma env crypto u a.tenant) (some ttl))
          (crypto.sign_seconds (payload_of prisma env crypto u a.tenant) ttl) in
      (
        session_of prisma env crypto (payload_of prisma env crypto u a.tenant) access li.raw_token
            (li.issued_at + ms),
        login_returns l li db' u a.tenant ttl ms access _ given found known right lasts short signed
            (create_free prisma _ _ db'.refresh_tokens unused),
        ground (arith, a.result),
        ground (arith, a.result),
        ground (arith, a.result),
        short,
        refl,
      )
