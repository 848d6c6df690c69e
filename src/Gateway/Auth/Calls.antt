-- ===== src/Gateway/Auth/Calls.antt =====
-- apps/api-gateway and apps/auth-org-service together: which calls of the service a request can make.
use nestjs_saas.Prelude.{
  String, Option, none, some, true, false, List, [], ◌∷◌, ◌≡◌, ◌⊎◌, inl, inr, refl, sym, ap, ◌∙◌,
  arith, ◌==◌, eq_iff, Bool-cases, or_default,
}
use nestjs_saas.Exec.{ok, Action, gets}
use nestjs_saas.Exec.Keeps.{after_lift}
use nestjs_saas.Common.Roles.{Role, super_admin, org_admin, learner}
use nestjs_saas.Auth.State.{Db}
use nestjs_saas.Auth.Calls.{
  Call, registers, invites, accepts, logs_in, refreshes, logs_out, logs_out_everywhere, step,
}
use nestjs_saas.Auth.Operations.{billing_ops_summary}
use nestjs_saas.Gateway.Guards.{
  JwtAccessPayload, AuthenticatedUser, Request, role_of_text, allows, before_handler,
}
use nestjs_saas.Gateway.Access.{before_handler-user}
use nestjs_saas.Gateway.Rpc.Answers.{tcp_call-run_safely}
use nestjs_saas.Gateway.Endpoints.{user_id_of, nat_of}
use nestjs_saas.Gateway.Courses.{Deployment}
use nestjs_saas.Gateway.Courses.Isolation.{token_claims, tenant_of, get_tenant-tenant_of}
use nestjs_saas.Gateway.Auth.{
  AuthEndpoint, register, log_in, refresh, logout, logout_all, accept, invite, billing_summary,
  AuthReply, AuthParts, auth_route, call_auth, handle_auth, serve_auth,
}

abbrev pub claimed_user : Option JwtAccessPayload → Option String
claimed_user none = none
claimed_user (some payload) = payload.user_id

abbrev pub claimed_role : Option JwtAccessPayload → Option String
claimed_role none = none
claimed_role (some payload) = payload.role

module _ (d : Deployment) where
  abbrev pub claims : Request → Option JwtAccessPayload
  claims request = token_claims d.verify request.bearer

  -- The call that a request to an endpoint may make: of the operation that the endpoint is for, on
  -- what its body carries, and, where the endpoint is for a user, for the user and the tenant of the
  -- request's token. An invite takes an administrator's role.
  abbrev pub MayCall : Request → AuthEndpoint → Call → Type 0
  MayCall request (register b i) (registers p j) =
      (p.tenant_name ≡ b.tenant_name)
      × (p.admin_email ≡ b.admin_email)
      × (p.admin_display_name ≡ b.admin_display_name)
      × (p.admin_password ≡ some b.admin_password)
      × (p.allowed_domains ≡ b.allowed_domains)
      × (j ≡ i)
  MayCall request (accept b i) (accepts p j) = (p ≡ b) × (j ≡ i)
  MayCall request (log_in tenant_id email password i) (logs_in p j) =
      (p.tenant_id ≡ some tenant_id) × (p.email ≡ email) × (p.password ≡ some password) × (j ≡ i)
  MayCall request (refresh token i) (refreshes t j) = (t ≡ some token) × (j ≡ i)
  MayCall request (logout token now) (logs_out t n) = (t ≡ some token) × (n ≡ now)
  MayCall request (logout_all now) (logs_out_everywhere user_id tenant_id n) =
      (user_id ≡ claimed_user (claims request)) × (tenant_id ≡ tenant_of d request) × (n ≡ now)
  MayCall request (invite b i) (invites p j) =
      (some p.invited_by_user_id ≡ claimed_user (claims request))
      × (some p.tenant_id ≡ tenant_of d request)
      × ((claimed_role (claims request) ≡ some "SUPER_ADMIN")
          ⊎ (claimed_role (claims request) ≡ some "ORG_ADMIN"))
      × (p.email ≡ b.email)
      × (p.role ≡ or_default b.role learner)
      × (p.expires_in_days ≡ nat_of b.expires_in_days)
      × (j ≡ i)
  MayCall request endpoint call = ⊥

  module _ (parts : AuthParts) where
    -- Nothing changed, or what such a call makes of the tables is there.
    abbrev pub OneCall : Request → AuthEndpoint → Db → Db → Type 0
    OneCall request endpoint db left =
        (left ≡ db)
        ⊎ ((c : Call) × MayCall request endpoint c × (left ≡ step d.prisma d.env parts.crypto db c))

    call_auth-effect :
        {A : Type 0} (f : A → AuthReply) (m : Action Db A) (db : Db)
        → (call_auth d parts f m db).1 ≡ (m db).1
    unfolding call_auth
    call_auth-effect f m db = ap (λ r. r.1) (tcp_call-run_safely d.transport m db)

    -- The user whom the guards let in is the one of the token.
    guarded :
        (request : Request) (endpoint : AuthEndpoint) (found : Option AuthenticatedUser)
        (tenant : Option String)
        → (auth_route endpoint).is_public ≡ false
        → before_handler d.verify (auth_route endpoint) request ≡ ok (found, tenant)
        → (role : Role) × (text : String) × (claimed_user (claims request)
            ≡ some (user_id_of found))
          × (claimed_role (claims request) ≡ some text)
          × (role_of_text text ≡ some role)
          × (((auth_route endpoint).roles ≡ []) ⊎ (allows (auth_route endpoint).roles role ≡ true))
    guarded request endpoint found tenant protected passed =
        let (user, token, payload, is_user, has_token, verified, seen, in_role, in_scope, same) =
          before_handler-user d.verify (auth_route endpoint) request found tenant protected
            passed in
        let (text, has_role, is_role) = seen.role in
        let payload_is : claims request ≡ some payload =
          ap (token_claims d.verify) has_token ∙ verified in
        (
          user.role,
          text,
          ap claimed_user payload_is ∙ seen.user_id ∙ ap (λ u. some (user_id_of u)) (sym is_user),
          ap claimed_role payload_is ∙ has_role,
          is_role,
          in_role,
        )

    admin_text :
        (text : String) (role : Role)
        → role_of_text text ≡ some role
        → ((◌≡◌ {A = List Role} (super_admin ∷ org_admin ∷ []) [])
            ⊎ (allows (super_admin ∷ org_admin ∷ []) role ≡ true))
        → (text ≡ "SUPER_ADMIN") ⊎ (text ≡ "ORG_ADMIN")
    admin_text text role is allowed = elim (Bool-cases (text == "SUPER_ADMIN")) [
      | inl same ↦ inl ((eq_iff text "SUPER_ADMIN").0 same)
      | inr other ↦ elim (Bool-cases (text == "ORG_ADMIN")) [
        | inl same ↦ inr ((eq_iff text "ORG_ADMIN").0 same)
        | inr neither ↦ absurd (ground (arith, is, allowed, other, neither))
      ]
    ]

    handle_auth-OneCall :
        (request : Request) (endpoint : AuthEndpoint) (found : Option AuthenticatedUser)
        (tenant : Option String) (db : Db)
        → before_handler d.verify (auth_route endpoint) request ≡ ok (found, tenant)
        → OneCall request endpoint db (handle_auth d parts endpoint tenant found db).1
    unfolding handle_auth step billing_ops_summary gets
    handle_auth-OneCall request (register b i) found tenant db passed =
        after_lift (OneCall request (register b i) db) _ _ db (inl refl) λ _ _. inr (
          registers
              (record {
                tenant_name = b.tenant_name;
                admin_email = b.admin_email;
                admin_display_name = b.admin_display_name;
                admin_password = some b.admin_password;
                allowed_domains = b.allowed_domains;
              })
              i,
          (refl, refl, refl, refl, refl, refl),
          call_auth-effect _ _ db,
        )
    handle_auth-OneCall request (log_in t email password i) found tenant db passed =
        after_lift (OneCall request (log_in t email password i) db) _ _ db (inl refl) λ _ _. inr (
          logs_in (record { tenant_id = some t; email = email; password = some password }) i,
          (refl, refl, refl, refl),
          call_auth-effect _ _ db,
        )
    handle_auth-OneCall request (refresh token i) found tenant db passed =
        after_lift (OneCall request (refresh token i) db) _ _ db (inl refl)
          λ _ _. inr (refreshes (some token) i, (refl, refl), call_auth-effect _ _ db)
    handle_auth-OneCall request (logout token now) found tenant db passed =
        after_lift (OneCall request (logout token now) db) _ _ db (inl refl)
          λ _ _. inr (logs_out (some token) now, (refl, refl), call_auth-effect _ _ db)
    handle_auth-OneCall request (logout_all now) found tenant db passed =
        let (role, text, user_is, role_is, known, in_role) =
          guarded request (logout_all now) found tenant refl passed in
        after_lift (OneCall request (logout_all now) db) _ _ db (inl refl) λ t got. inr (
          logs_out_everywhere (some (user_id_of found)) (some t) now,
          (
            sym user_is,
            sym (get_tenant-tenant_of d request _ found tenant t refl passed got),
            refl,
          ),
          call_auth-effect _ _ db,
        )
    handle_auth-OneCall request (accept p i) found tenant db passed =
        after_lift (OneCall request (accept p i) db) _ _ db (inl refl)
          λ _ _. inr (accepts p i, (refl, refl), call_auth-effect _ _ db)
    handle_auth-OneCall request (invite b i) found tenant db passed =
        let (role, text, user_is, role_is, known, in_role) =
          guarded request (invite b i) found tenant refl passed in
        after_lift (OneCall request (invite b i) db) _ _ db (inl refl) λ t got.
          after_lift (OneCall request (invite b i) db) _ _ db (inl refl) λ _ _. inr (
            invites
                (record {
                  tenant_id = t;
                  invited_by_user_id = user_id_of found;
                  email = b.email;
                  role = or_default b.role learner;
                  expires_in_days = nat_of b.expires_in_days;
                })
                i,
            (
              sym user_is,
              sym (get_tenant-tenant_of d request _ found tenant t refl passed got),
              elim (admin_text text role known in_role) [
                | inl super ↦ inl (role_is ∙ ap some super)
                | inr admin ↦ inr (role_is ∙ ap some admin)
              ],
              refl,
              refl,
              refl,
              refl,
            ),
            call_auth-effect _ _ db,
          )
    handle_auth-OneCall request (billing_summary hours now) found tenant db passed =
        inl (call_auth-effect _ _ db)

    -- A request to an endpoint for authentication leaves the tables of the service as they were, or
    -- as one call of the service leaves them, of the operation that the endpoint is for: a
    -- registration, the acceptance of an invite, a login, a refresh or a logout with exactly what the
    -- request's body carries, the end of all sessions of the user and the tenant of its token, or an
    -- invite as in its body by that user to that tenant, where the token's role is SUPER_ADMIN or
    -- ORG_ADMIN.
    pub serve_auth-OneCall :
        (request : Request) (endpoint : AuthEndpoint) (db : Db)
        → OneCall request endpoint db (serve_auth d parts request endpoint db).1
    unfolding serve_auth
    serve_auth-OneCall request endpoint db =
        after_lift (OneCall request endpoint db) _ _ db (inl refl)
          λ passed is_passed. handle_auth-OneCall request endpoint passed.0 passed.1 db is_passed
