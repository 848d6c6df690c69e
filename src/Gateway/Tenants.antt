-- ===== src/Gateway/Tenants.antt =====
-- libs/common/src/tenant: `normalizeRequestPath`, `isTenantOptionalRoute`, the tenant middleware and
-- the tenant interceptor.
use nestjs_saas.Prelude.{
  String, Option, none, some, Bool, true, not, ◌&&◌, ◌||◌, List, [], ◌∷◌, if◌then◌else◌, ◌≡◌, refl,
  ◌==◌, or_default,
}
use nestjs_saas.Exec.{Result, ok, err, bad_request}
use nestjs_saas.Js.Text.{trim, to_lower_case, split, to_upper_case, starts_with, includes}
use Prim.Native.String.{◌++◌ as append}

-- `path.split('?')[0] ?? '/'`
abbrev first_part : List String → String
first_part [] = "/"
first_part (part ∷ parts) = part

unfoldable pub normalize_request_path : Option String → String
unfolding split starts_with
normalize_request_path none = "/"
normalize_request_path (some path) =
    let without_query = first_part (split b'?' path) in
    if path == ""
    then "/"
    else if starts_with "/" without_query
    then without_query
    else append "/" without_query

-- The regular expressions ignore case: `/^\/health(\/|$)/i` and those of one whole path.
abbrev is_health : String → Bool
is_health p = (p == "/health") || starts_with "/health/" p

unfoldable pub is_tenant_optional_route : String → String → Bool
unfolding to_upper_case to_lower_case normalize_request_path starts_with includes
is_tenant_optional_route method path =
    let m = to_upper_case method in
    let exact = normalize_request_path (some path) in
    let p = to_lower_case exact in
    ((exact == "/") && (m == "GET"))
    || is_health p
    || (starts_with "/internal/" p && includes "health" p)
    || ((p == "/internal/ops/metrics") && (m == "GET"))
    || ((p == "/internal/ops/health") && (m == "GET"))
    || ((p == "/internal/ops/readiness") && (m == "GET"))
    || ((p == "/internal/ops/alerts") && (m == "GET"))
    || ((p == "/auth/login") && ((m == "POST") || (m == "GET")))
    || ((p == "/auth/register") && (m == "POST"))
    || ((p == "/auth/invites/accept") && (m == "POST"))
    || ((p == "/auth/refresh") && (m == "POST"))
    || ((p == "/auth/logout") && (m == "POST"))
    || ((p == "/login") && (m == "POST"))

-- The tenant that the middleware puts on the request, if any.
unfoldable pub tenant_middleware : String → Option String → Option String → Result (Option String)
unfolding trim is_tenant_optional_route normalize_request_path
tenant_middleware method path header =
    let tenant_id = trim (or_default header "") in
    let found = if tenant_id == "" then none else some tenant_id in
    if is_tenant_optional_route method (normalize_request_path path)
    then ok found
    else if tenant_id == ""
    then err (bad_request "Missing required header: x-tenant-id")
    else ok found

-- What the interceptor leaves on the request, where the middleware left `tenant`.
unfoldable pub tenant_interceptor :
    String → Option String → Option String → Option String → Result (Option String)
unfolding trim is_tenant_optional_route normalize_request_path
tenant_interceptor method path header tenant =
    let tenant_id = trim (or_default header "") in
    let found = if tenant_id == "" then tenant else some tenant_id in
    if is_tenant_optional_route method (normalize_request_path path)
    then ok found
    else if trim (or_default found "") == ""
    then err (bad_request "Missing required header: x-tenant-id")
    else ok found

routes_test :
    is_tenant_optional_route "post" "/Auth/Login?next=1"
      && not (is_tenant_optional_route "GET" "/courses")
    ≡ true
unfolding is_tenant_optional_route
routes_test = refl
