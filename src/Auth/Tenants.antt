-- ===== src/Auth/Tenants.antt =====
-- apps/auth-org-service/src/auth-org-service.service.ts: `registerTenant`.
use nestjs_saas.Prelude.{
  ℕ, String, Option, none, some, true, false, not, ◌||◌, List, [], map, ltb, if◌then◌else◌, ◌==◌,
  or_default, is_some, keep,
}
use nestjs_saas.Exec.{
  prisma_error, Action, pure, gets, lift, or_throw, ◌>>=◌, ◌>>◌, throw_if, modify, bad_request,
  Error, rpc_exception,
}
use nestjs_saas.Prisma.{Prisma}
use nestjs_saas.Js.Text.{trim, to_lower_case, str_length}
use nestjs_saas.Common.Roles.{Role, org_admin}
use nestjs_saas.Common.Tiers.{free}
use nestjs_saas.Js.Text.{collapse_spaces}
use nestjs_saas.Auth.State.{
  Tenant, User, Membership, Db, Crypto, same_tenant, same_user, same_membership,
}
use nestjs_saas.Auth.Domains.{normalize_email, ensure_domain_allowed}

pub record RegisterTenant : Type 0 where
  pub tenant_name : String
  pub admin_email : String
  pub admin_display_name : Option String
  pub admin_password : Option String
  pub allowed_domains : Option (List String)

-- What the call takes from outside: the ids of the new rows, the salt and the clock.
pub record RegisterInputs : Type 0 where
  pub tenant_id : String
  pub user_id : String
  pub salt : String
  pub created_at : ℕ
  pub activated_at : ℕ

pub record RegisteredTenant : Type 0 where
  pub tenant_id : String
  pub tenant_name : String
  pub admin_user_id : String
  pub admin_email : String
  pub admin_role : Role
  pub allowed_domains : List String

-- `value?.trim() || null`
unfoldable pub trimmed_or_null : Option String → Option String
unfolding trim
trimmed_or_null none = none
trimmed_or_null (some value) = if trim value == "" then none else some (trim value)

unfoldable pub clean_domains : Option (List String) → List String
unfolding trim to_lower_case
clean_domains domains =
    keep (λ d. not (d == "")) (map (λ d. to_lower_case (trim d)) (or_default domains []))

abbrev name_taken : String
name_taken = "An organization with this name already exists"

-- The columns that the call leaves out take the defaults of the schema.
abbrev new_tenant : RegisterInputs → String → List String → Tenant
new_tenant inputs name domains = record {
  id = inputs.tenant_id;
  updated_at = inputs.created_at;
  name = name;
  subscription_tier = free;
  allowed_domains = domains;
  stripe_customer_id = none;
  stripe_subscription_id = none;
  included_learner_seats = none;
  seat_billing_period_days = 30;
}

-- `conflictRpc`
abbrev pub conflict_rpc : String → Error
conflict_rpc = rpc_exception 409

module _ (prisma : Prisma) (crypto : Crypto) where
  abbrev new_admin : RegisterTenant → RegisterInputs → String → String → User
  new_admin payload inputs email password = record {
    id = inputs.user_id;
    tenant_id = inputs.tenant_id;
    email = email;
    display_name = trimmed_or_null payload.admin_display_name;
    password_hash = crypto.hash inputs.salt password;
    last_login_at = none;
    role = org_admin;
  }

  abbrev new_admin_membership : RegisterInputs → Membership
  new_admin_membership inputs = record {
    tenant_id = inputs.tenant_id;
    user_id = inputs.user_id;
    is_active = true;
    activated_at = some inputs.activated_at;
    last_seat_qualifying_activity_at = none;
    counts_toward_learner_seats = false;
  }

  unfoldable pub register_tenant : RegisterTenant → RegisterInputs → Action Db RegisteredTenant
  unfolding trim collapse_spaces normalize_email clean_domains trimmed_or_null
  register_tenant payload inputs =
      let name = collapse_spaces (trim payload.tenant_name) in
      let email = normalize_email payload.admin_email in
      let password = trim (or_default payload.admin_password "") in
      let domains = clean_domains payload.allowed_domains in
      do
        throw_if ((name == "") || (email == "") || (password == ""))
            (bad_request "tenantName, adminEmail, and adminPassword are required")
        throw_if (ltb (str_length password) 8)
            (bad_request "adminPassword must be at least 8 characters")
        lift (ensure_domain_allowed domains email)
        db ← gets (λ db. db)
        throw_if (is_some (prisma.find_first (λ t. t.name == name) db.tenants))
            (conflict_rpc name_taken)
        let tenant = new_tenant inputs name domains
        -- a unique violation is reported like the name that was found
        tenants ←
            or_throw (prisma.create (same_tenant tenant) tenant db.tenants)
              (conflict_rpc name_taken)
        modify (λ db. record db { tenants = tenants })
        let user = new_admin payload inputs email password
        users ← or_throw (prisma.create (same_user user) user db.users) (prisma_error "P2002")
        modify (λ db. record db { users = users })
        let membership = new_admin_membership inputs
        memberships ←
            or_throw (prisma.create (same_membership membership) membership db.memberships)
              (prisma_error "P2002")
        modify (λ db. record db { memberships = memberships })
        pure (record {
          tenant_id = tenant.id;
          tenant_name = tenant.name;
          admin_user_id = user.id;
          admin_email = user.email;
          admin_role = user.role;
          allowed_domains = tenant.allowed_domains;
        })
