-- ===== src/Gateway/Examples.antt =====
-- Concrete inputs for the theorems about apps/api-gateway; here, those about its guards.
mod Core
mod Courses
mod Auth
use nestjs_saas.Prelude.{
  String, Option, none, some, true, false, [], ◌∷◌, if◌then◌else◌, ◌≡◌, ◌≢◌, ◌⊎◌, refl, ◌==◌,
}
use nestjs_saas.Exec.{
  Error, exception, rpc_exception, prisma_error, plain_error, ok, err, unauthorized, forbidden,
  bad_request,
}
use nestjs_saas.Common.Roles.{org_admin, instructor}
use nestjs_saas.Common.Tiers.{pro}
use nestjs_saas.Gateway.Tenants.{is_tenant_optional_route, normalize_request_path}
use nestjs_saas.Gateway.Guards.{
  JwtAccessPayload, AuthenticatedUser, Route, Request, allows, is_foreign_tenant, before_handler,
}
use nestjs_saas.Gateway.Rpc.{RpcError, Transport, rpc_object, unknown_error}
use nestjs_saas.Gateway.Access.{Validated, before_handler-user}

abbrev received : Error → RpcError
received (exception status message) = unknown_error
received (rpc_exception status_code message) = rpc_object status_code message
received (prisma_error code) = unknown_error
received (plain_error message) = unknown_error

abbrev pub tcp : Transport
tcp = record {
  received = received;
  received_rpc = λ status_code message. refl;
  received_exception = λ status message. refl;
  received_prisma = λ code. refl;
  received_plain = λ message. refl;
}

abbrev ann_token : JwtAccessPayload
ann_token = record {
  user_id = some "ann";
  tenant_id = some "t1";
  role = some "INSTRUCTOR";
  subscription_tier = some "PRO";
  token_use = some "access";
}

abbrev ann : AuthenticatedUser
ann = record { user_id = "ann"; tenant_id = "t1"; role = instructor; subscription_tier = pro }

abbrev verify : String → Option JwtAccessPayload
verify token = if token == "good" then some ann_token else none

abbrev teachers : Route
teachers = record { is_public = false; roles = org_admin ∷ instructor ∷ [] }

abbrev create_a_course : Request
create_a_course = record {
  method = "POST";
  path = some "/courses?draft=1";
  tenant_header = some " t1 ";
  bearer = some "good";
  params_tenant_id = none;
  body_tenant_id = some "t1";
  query_tenant_id = none;
}

foreign_body_test :
    before_handler verify teachers (record create_a_course { body_tenant_id = some "t2" })
    ≡ err (forbidden "Cross-tenant access denied")
unfolding before_handler
foreign_body_test = refl

foreign_header_test :
    before_handler verify teachers (record create_a_course { tenant_header = some "t2" })
    ≡ err (unauthorized "Tenant in token does not match x-tenant-id header")
unfolding before_handler
foreign_header_test = refl

no_header_test :
    before_handler verify teachers (record create_a_course { tenant_header = none })
    ≡ err (bad_request "Missing required header: x-tenant-id")
unfolding before_handler
no_header_test = refl

learner_test :
    before_handler verify (record teachers { roles = org_admin ∷ [] }) create_a_course
    ≡ err (forbidden "Insufficient permissions for this action")
unfolding before_handler
learner_test = refl

abbrev ann_tenant : Option String
ann_tenant = some "t1"

create_a_course_passes : before_handler verify teachers create_a_course ≡ ok (some ann, some "t1")
unfolding before_handler
create_a_course_passes = refl

before_handler-user_example :
    (user : AuthenticatedUser) × (token : String) × (payload : JwtAccessPayload) × (some ann
      ≡ some user)
    × (some "good" ≡ some token)
    × (verify token ≡ some payload)
    × Validated (some " t1 ") payload user
    × ((teachers.roles ≡ []) ⊎ (allows teachers.roles user.role ≡ true))
    × (user.tenant_id ≢ ""
        → (is_foreign_tenant user.tenant_id none ≡ false)
          × (is_foreign_tenant user.tenant_id (some "t1") ≡ false)
          × (is_foreign_tenant user.tenant_id none ≡ false))
    × ((ann_tenant ≡ some user.tenant_id)
        ⊎ ((ann_tenant ≡ none)
            × (is_tenant_optional_route "POST" (normalize_request_path (some "/courses?draft=1"))
                ≡ true)))
before_handler-user_example =
    before_handler-user verify teachers create_a_course (some ann) ann_tenant refl
      create_a_course_passes
