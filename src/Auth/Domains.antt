-- ===== src/Auth/Domains.antt =====
-- apps/auth-org-service/src/auth-org-service.service.ts: `normalizeEmail`, `domainFromEmail` and
-- `ensureDomainAllowed`.
use nestjs_saas.Prelude.{
  String, Option, none, some, Bool, List, [], ◌∷◌, if◌then◌else◌, ◌==◌, exists,
}
use nestjs_saas.Exec.{Result, ok, err, bad_request, conflict}
use nestjs_saas.Js.Text.{trim, to_lower_case, split}
use Prim.Native.String.{◌++◌ as str_append}

unfoldable pub normalize_email : String → String
unfolding trim to_lower_case
normalize_email email = to_lower_case (trim email)

-- Two parts, the second not empty.
abbrev domain_of : List String → Option String
domain_of (part ∷ domain ∷ []) = if domain == "" then none else some domain
domain_of _ = none

unfoldable pub domain_from_email : String → Result String
unfolding split to_lower_case
domain_from_email email = elim (domain_of (split b'@' email)) [
  | none ↦ err (bad_request "Invalid email")
  | some domain ↦ ok (to_lower_case domain)
]

abbrev pub includes : List String → String → Bool
includes items item = exists (λ x. x == item) items

check_domain : List String → Result String → Result (Unit {0})
check_domain allowed (err e) = err e
check_domain allowed (ok domain) =
    if includes allowed domain
    then ok tt
    else err (
        conflict (str_append "Email domain " (str_append domain " is not allowed for this tenant")))

unfoldable pub ensure_domain_allowed : List String → String → Result (Unit {0})
unfolding check_domain
ensure_domain_allowed [] email = ok tt
ensure_domain_allowed (d ∷ ds) email = check_domain (d ∷ ds) (domain_from_email email)
