-- ===== src/Gateway/Guards.antt =====
-- apps/api-gateway/src/auth/index.ts: the validation of the access token, and the guards in the order
-- in which apps/api-gateway/src/api-gateway.module.ts lists them. The throttler is left out.
use nestjs_saas.Prelude.{
  String, Option, none, some, Bool, false, not, ◌&&◌, ◌||◌, List, [], ◌∷◌, if◌then◌else◌, ◌==◌,
  or_default,
}
use nestjs_saas.Exec.{Result, ok, err, unauthorized, forbidden}
use nestjs_saas.Js.Text.{trim}
use nestjs_saas.Common.Roles.{Role, super_admin, org_admin, instructor, learner, role_eq}
use nestjs_saas.Common.Tiers.{SubscriptionTier, free, pro, enterprise}
use nestjs_saas.Gateway.Tenants.{tenant_middleware, tenant_interceptor}

-- The claims of a token whose signature and expiry passport-jwt has checked.
pub record JwtAccessPayload : Type 0 where
  pub user_id : Option String
  pub tenant_id : Option String
  pub role : Option String
  pub subscription_tier : Option String
  pub token_use : Option String

pub record AuthenticatedUser : Type 0 where
  pub user_id : String
  pub tenant_id : String
  pub role : Role
  pub subscription_tier : SubscriptionTier

-- What the decorators `@Public()` and `@Roles()` say of a handler.
pub record Route : Type 0 where
  pub is_public : Bool
  pub roles : List Role

-- The first value of the tenant header, the bearer token, and the tenant ids that are texts in the
-- path parameters, the body and the query.
pub record Request : Type 0 where
  pub method : String
  pub path : Option String
  pub tenant_header : Option String
  pub bearer : Option String
  pub params_tenant_id : Option String
  pub body_tenant_id : Option String
  pub query_tenant_id : Option String

-- `Object.values(Role).includes(role)`
abbrev pub role_of_text : String → Option Role
role_of_text text =
    if text == "SUPER_ADMIN"
    then some super_admin
    else if text == "ORG_ADMIN"
    then some org_admin
    else if text == "INSTRUCTOR"
    then some instructor
    else if text == "LEARNER"
    then some learner
    else none

abbrev pub tier_of_text : String → Option SubscriptionTier
tier_of_text text =
    if text == "FREE"
    then some free
    else if text == "PRO"
    then some pro
    else if text == "ENTERPRISE"
    then some enterprise
    else none

abbrev pub or_unauthorized : {A : Type 0} → Option A → String → Result A
or_unauthorized none message = err (unauthorized message)
or_unauthorized (some a) message = ok a

abbrev pub and_then : {A B : Type 0} → Result A → (A → Result B) → Result B
and_then (err e) f = err e
and_then (ok a) f = f a

-- Is the header there, and another tenant's?
abbrev pub header_differs : String → Option String → Bool
header_differs tenant_id header =
    let header_tenant = trim (or_default header "") in
    not (header_tenant == "") && not (tenant_id == header_tenant)

abbrev missing_claim : String
missing_claim = "Token missing userId, tenantId, or role"

unfoldable pub validate : Option String → JwtAccessPayload → Result AuthenticatedUser
unfolding trim
validate header payload = and_then (or_unauthorized payload.user_id missing_claim) (λ user_id.
    and_then (or_unauthorized payload.tenant_id missing_claim) (λ tenant_id.
      and_then (or_unauthorized payload.role missing_claim) (λ role_text.
        and_then (or_unauthorized (role_of_text role_text) "Invalid role in token") (λ role.
          if not (or_default payload.token_use "access" == "access")
          then err (unauthorized "Invalid token type")
          else and_then
              (or_unauthorized (tier_of_text (or_default payload.subscription_tier "FREE"))
                "Invalid subscription tier in token")
              (λ tier.
                if header_differs tenant_id header
                then err (unauthorized "Tenant in token does not match x-tenant-id header")
                else ok (record {
                  user_id = user_id;
                  tenant_id = tenant_id;
                  role = role;
                  subscription_tier = tier;
                }))))))

-- `required.includes(role)`
abbrev pub allows : List Role → Role → Bool
allows [] role = false
allows (r ∷ roles) role = role_eq r role || allows roles role

abbrev pub roles_guard : List Role → Option AuthenticatedUser → Result (Unit {0})
roles_guard [] user = ok tt
roles_guard (r ∷ roles) none = err (forbidden "Missing user role")
roles_guard (r ∷ roles) (some user) =
    if allows (r ∷ roles) user.role
    then ok tt
    else err (forbidden "Insufficient permissions for this action")

abbrev pub is_foreign_tenant : String → Option String → Bool
is_foreign_tenant expected none = false
is_foreign_tenant expected (some value) = not (trim value == "") && not (value == expected)

unfoldable pub tenant_scope_guard : Bool → Option AuthenticatedUser → Request → Result (Unit {0})
unfolding trim
tenant_scope_guard is_public none request = ok tt
tenant_scope_guard is_public (some user) request =
    if is_public || (user.tenant_id == "")
    then ok tt
    else if is_foreign_tenant user.tenant_id request.params_tenant_id
        || is_foreign_tenant user.tenant_id request.body_tenant_id
        || is_foreign_tenant user.tenant_id request.query_tenant_id
    then err (forbidden "Cross-tenant access denied")
    else ok tt

-- passport-jwt is the parameter `verify`: the claims of a token that it accepts.
module _ (verify : String → Option JwtAccessPayload) where
  abbrev claims_of : Option String → Option JwtAccessPayload
  claims_of none = none
  claims_of (some token) = verify token

  unfoldable pub jwt_auth_guard : Bool → Request → Result (Option AuthenticatedUser)
  unfolding validate
  jwt_auth_guard is_public request =
      if is_public
      then ok none
      else and_then (or_unauthorized (claims_of request.bearer) "Unauthorized")
          (λ payload. and_then (validate request.tenant_header payload) (λ user. ok (some user)))

  -- What comes before a handler: the middleware, the guards in their order, and the interceptor. The
  -- handler finds the user and the tenant on the request.
  unfoldable pub before_handler :
      Route → Request → Result (Option AuthenticatedUser × Option String)
  unfolding tenant_middleware jwt_auth_guard tenant_scope_guard tenant_interceptor
  before_handler route request =
      and_then (tenant_middleware request.method request.path request.tenant_header) (λ tenant.
        and_then (jwt_auth_guard route.is_public request) (λ user.
          and_then (roles_guard route.roles user) (λ passed.
            and_then (tenant_scope_guard route.is_public user request) (λ scoped.
              and_then (tenant_interceptor request.method request.path request.tenant_header tenant)
                (λ found. ok (user, found))))))
