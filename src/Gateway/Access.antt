-- ===== src/Gateway/Access.antt =====
-- apps/api-gateway: who gets past the guards.
use nestjs_saas.Prelude.{
  String, Option, none, some, true, false, List, [], ◌∷◌, ◌≡◌, ◌∙◌, ap, ◌≢◌, ◌⊎◌, refl, sym, arith,
  Option-cases, Bool-cases, inl, inr, ◌==◌, eq_iff, or_default,
}
use nestjs_saas.Exec.{ok, Result-cases}
use nestjs_saas.Js.Text.{trim}
use nestjs_saas.Common.Roles.{Role}
use nestjs_saas.Gateway.Tenants.{
  normalize_request_path, is_tenant_optional_route, tenant_middleware, tenant_interceptor,
}
use nestjs_saas.Gateway.Guards.{
  JwtAccessPayload, AuthenticatedUser, Route, Request, role_of_text, tier_of_text, header_differs,
  validate, allows, roles_guard, is_foreign_tenant, tenant_scope_guard, jwt_auth_guard,
  before_handler,
}

-- What `validate` has seen of the claims of the user it lets in.
pub record Validated (header : Option String) (payload : JwtAccessPayload)
    (user : AuthenticatedUser) : Type 0 where
  pub user_id : payload.user_id ≡ some user.user_id
  pub tenant_id : payload.tenant_id ≡ some user.tenant_id
  pub role : (text : String) × (payload.role ≡ some text) × (role_of_text text ≡ some user.role)
  pub same_tenant : header_differs user.tenant_id header ≡ false

validate-Validated :
    (header : Option String) (payload : JwtAccessPayload) (user : AuthenticatedUser)
    → validate header payload ≡ ok user
    → Validated header payload user
unfolding validate
validate-Validated header payload user e = elim (Option-cases payload.user_id) [
  | inl no_user ↦ ground arith
  | inr (user_id, has_user) ↦ elim (Option-cases payload.tenant_id) [
    | inl no_tenant ↦ ground arith
    | inr (tenant_id, has_tenant) ↦ elim (Option-cases payload.role) [
      | inl no_role ↦ ground arith
      | inr (text, has_role) ↦ elim (Option-cases (role_of_text text)) [
        | inl unknown ↦ ground arith
        | inr (role, known) ↦
            elim (Option-cases (tier_of_text (or_default payload.subscription_tier "FREE"))) [
              | inl no_tier ↦ ground arith
              | inr (tier, has_tier) ↦
                  elim (Bool-cases (or_default payload.token_use "access" == "access")) [
                    | inl is_access ↦ elim (Bool-cases (header_differs tenant_id header)) [
                      | inl differs ↦ ground arith
                      | inr same ↦ record {
                        user_id = ground arith;
                        tenant_id = ground arith;
                        role = (text, has_role, ground arith);
                        same_tenant = ground arith;
                      }
                    ]
                    | inr is_other ↦ ground arith
                  ]
            ]
      ]
    ]
  ]
]

roles_guard-allows :
    (roles : List Role) (user : AuthenticatedUser)
    → roles_guard roles (some user) ≡ ok tt
    → (roles ≡ []) ⊎ (allows roles user.role ≡ true)
roles_guard-allows [] user e = inl refl
roles_guard-allows (r ∷ roles) user e = inr (elim (Bool-cases (allows (r ∷ roles) user.role)) [
  | inl allowed ↦ allowed
  | inr refused ↦ ground arith
])

tenant_scope_guard-same :
    (user : AuthenticatedUser) (request : Request)
    → tenant_scope_guard false (some user) request ≡ ok tt
    → user.tenant_id ≢ ""
    → (is_foreign_tenant user.tenant_id request.params_tenant_id ≡ false)
      × (is_foreign_tenant user.tenant_id request.body_tenant_id ≡ false)
      × (is_foreign_tenant user.tenant_id request.query_tenant_id ≡ false)
unfolding tenant_scope_guard
tenant_scope_guard-same user request e named =
    let not_blank : (user.tenant_id == "") ≡ false =
      ground (arith, named, eq_iff user.tenant_id "") in
    elim (Bool-cases (is_foreign_tenant user.tenant_id request.params_tenant_id)) [
      | inl foreign ↦ ground arith
      | inr params ↦ elim (Bool-cases (is_foreign_tenant user.tenant_id request.body_tenant_id)) [
        | inl foreign ↦ ground arith
        | inr body ↦ elim (Bool-cases (is_foreign_tenant user.tenant_id request.query_tenant_id)) [
          | inl foreign ↦ ground arith
          | inr query ↦ (params, body, query)
        ]
      ]
    ]

-- The tenant on the request is the one in the header, if that is not blank.
tenant_interceptor-found :
    (method : String) (path header tenant found : Option String) (tenant_id : String)
    → tenant_middleware method path header ≡ ok tenant
    → tenant_interceptor method path header tenant ≡ ok found
    → header_differs tenant_id header ≡ false
    → (found ≡ some tenant_id)
      ⊎ ((found ≡ none) × (is_tenant_optional_route method (normalize_request_path path) ≡ true))
unfolding tenant_middleware tenant_interceptor
tenant_interceptor-found method path header tenant found tenant_id through e same =
    let sent = trim (or_default header "") in
    elim (Bool-cases (sent == "")) [
      | inl blank ↦
          elim (Bool-cases (is_tenant_optional_route method (normalize_request_path path))) [
            | inl optional ↦ inr (ground arith, optional)
            | inr needed ↦ ground arith
          ]
      | inr named ↦
          let is_tenant : tenant_id ≡ sent = ground (arith, named, same, eq_iff tenant_id sent) in
          inl (elim (Bool-cases (is_tenant_optional_route method (normalize_request_path path))) [
            | inl optional ↦ ground arith
            | inr needed ↦ ground arith
          ])
    ]

module _ (verify : String → Option JwtAccessPayload) where
  jwt_auth_guard-Validated :
      (request : Request) (found : Option AuthenticatedUser)
      → jwt_auth_guard verify false request ≡ ok found
      → (user : AuthenticatedUser) × (token : String) × (payload : JwtAccessPayload) × (found
          ≡ some user)
        × (request.bearer ≡ some token)
        × (verify token ≡ some payload)
        × Validated request.tenant_header payload user
  unfolding jwt_auth_guard
  jwt_auth_guard-Validated request found e = elim (Option-cases request.bearer) [
    | inl no_bearer ↦ ground arith
    | inr (token, has_token) ↦ elim (Option-cases (verify token)) [
      | inl not_verified ↦ ground arith
      | inr (payload, verified) ↦ elim (Result-cases (validate request.tenant_header payload)) [
        | inr (x, refused) ↦ ground arith
        | inl (user, valid) ↦ (
          user,
          token,
          payload,
          ground arith,
          has_token,
          verified,
          validate-Validated request.tenant_header payload user valid,
        )
      ]
    ]
  ]

  -- A request reaches a handler that is not public only with a token that was verified, for the user
  -- that the token names. The user has one of the roles that the handler lists, if it lists any; no
  -- tenant id in the path, the body or the query that is not blank names another tenant than the
  -- token's, where that is not empty; and the tenant that the handler finds on the request is the
  -- token's, or there is none and the route is one of those that need no tenant.
  pub before_handler-user :
      (route : Route) (request : Request) (found : Option AuthenticatedUser)
      (tenant : Option String)
      → route.is_public ≡ false
      → before_handler verify route request ≡ ok (found, tenant)
      → (user : AuthenticatedUser) × (token : String) × (payload : JwtAccessPayload) × (found
          ≡ some user)
        × (request.bearer ≡ some token)
        × (verify token ≡ some payload)
        × Validated request.tenant_header payload user
        × ((route.roles ≡ []) ⊎ (allows route.roles user.role ≡ true))
        × (user.tenant_id ≢ ""
            → (is_foreign_tenant user.tenant_id request.params_tenant_id ≡ false)
              × (is_foreign_tenant user.tenant_id request.body_tenant_id ≡ false)
              × (is_foreign_tenant user.tenant_id request.query_tenant_id ≡ false))
        × ((tenant ≡ some user.tenant_id)
            ⊎ ((tenant ≡ none)
                × (is_tenant_optional_route request.method (normalize_request_path request.path)
                    ≡ true)))
  unfolding before_handler
  before_handler-user route request found tenant protected e =
      elim (Result-cases (tenant_middleware request.method request.path request.tenant_header)) [
        | inr (x, refused) ↦ ground arith
        | inl (sent, through) ↦ elim (Result-cases (jwt_auth_guard verify false request)) [
          | inr (x, refused) ↦ ground arith
          | inl (known, auth) ↦ elim (Result-cases (roles_guard route.roles known)) [
            | inr (x, refused) ↦ ground arith
            | inl (passed, in_role) ↦ elim (Result-cases (tenant_scope_guard false known request)) [
              | inr (x, refused) ↦ ground arith
              | inl (scoped, in_scope) ↦
                  elim (Result-cases
                    (tenant_interceptor request.method request.path request.tenant_header sent)) [
                      | inr (x, refused) ↦ ground arith
                      | inl (kept, keeps) ↦
                          let (user, token, payload, is_user, has_token, verified, seen) =
                            jwt_auth_guard-Validated request known auth in
                          let is_found : known ≡ found = ground arith in
                          let is_tenant : kept ≡ tenant = ground arith in
                          (
                            user,
                            token,
                            payload,
                            sym is_found ∙ is_user,
                            has_token,
                            verified,
                            seen,
                            roles_guard-allows route.roles user
                                (ap (roles_guard route.roles) (sym is_user) ∙ in_role),
                            tenant_scope_guard-same user request (
                                ap (λ u. tenant_scope_guard false u request) (sym is_user)
                                ∙ in_scope),
                            tenant_interceptor-found request.method request.path
                                request.tenant_header sent tenant user.tenant_id through
                                (keeps ∙ ap ok is_tenant) seen.same_tenant,
                          )
                    ]
            ]
          ]
        ]
      ]
