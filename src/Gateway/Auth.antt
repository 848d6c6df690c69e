-- ===== src/Gateway/Auth.antt =====
-- apps/api-gateway/src/auth: the endpoints of auth.controller.ts behind the guards, with the bodies of
-- dto.ts, and the calls of auth-gateway.service.ts.
pub mod Calls
use nestjs_saas.Prelude.{
  ℕ, String, Option, none, some, Bool, true, false, ◌&&◌, List, [], ◌∷◌, leb, length, or_default,
}
use nestjs_saas.Exec.{Result, ok, err, Action, pure, lift, ◌>>=◌, ◌>>◌}
use nestjs_saas.Js.Number.{ℤ, pos, negsuc}
use nestjs_saas.Common.Roles.{Role, super_admin, org_admin, learner}
use nestjs_saas.Auth.State.{Crypto, Invite, Db}
use nestjs_saas.Auth.Tenants.{RegisterTenant, RegisterInputs, RegisteredTenant, register_tenant}
use nestjs_saas.Auth.Invites.{
  InviteInputs, AcceptInvite, AcceptInputs, AcceptedInvite, create_invite, accept_invite,
}
use nestjs_saas.Auth.Sessions.{
  LoginInputs, RefreshInputs, Session, login, refresh_session, logout_session, logout_all_sessions,
}
use nestjs_saas.Auth.Operations.{Grouping, BillingOps, billing_ops_summary}
use nestjs_saas.Auth.Controller.{run_safely}
use nestjs_saas.Courses.Dto.{has_length, optionally}
use nestjs_saas.Gateway.Guards.{AuthenticatedUser, Route, Request, before_handler}
use nestjs_saas.Gateway.Rpc.{tcp_call}
use nestjs_saas.Gateway.Endpoints.{get_tenant, user_id_of, nat_of}
use nestjs_saas.Gateway.Courses.{Deployment, validate_body}

pub record RegisterBody : Type 0 where
  pub tenant_name : String
  pub admin_email : String
  pub admin_display_name : Option String
  pub admin_password : String
  pub allowed_domains : Option (List String)

pub record InviteBody : Type 0 where
  pub email : String
  pub role : Option Role
  pub expires_in_days : Option ℤ

-- The handlers with their bodies, and what the call takes from outside. `tenantAuthEcho`, which only
-- sends back what it is sent, is left out.
pub data AuthEndpoint : Type 0 where
  register : RegisterBody → RegisterInputs → AuthEndpoint
  log_in : (tenant_id email password : String) → LoginInputs → AuthEndpoint
  refresh : (refresh_token : String) → RefreshInputs → AuthEndpoint
  logout : (refresh_token : String) → (now : ℕ) → AuthEndpoint
  logout_all : (now : ℕ) → AuthEndpoint
  accept : AcceptInvite → AcceptInputs → AuthEndpoint
  invite : InviteBody → InviteInputs → AuthEndpoint
  billing_summary : (hours : Option ℤ) → (now : ℕ) → AuthEndpoint

pub data AuthReply : Type 0 where
  registered : RegisteredTenant → AuthReply
  session : Session → AuthReply
  accepted : AcceptedInvite → AuthReply
  invited : Invite → AuthReply
  summarized : BillingOps → AuthReply
  done : AuthReply

-- `@Public()` and `@Roles(…)`
abbrev pub auth_route : AuthEndpoint → Route
auth_route (register b i) = record { is_public = true; roles = [] }
auth_route (log_in t e p i) = record { is_public = true; roles = [] }
auth_route (refresh token i) = record { is_public = true; roles = [] }
auth_route (logout token now) = record { is_public = true; roles = [] }
auth_route (accept p i) = record { is_public = true; roles = [] }
auth_route (logout_all now) = record { is_public = false; roles = [] }
auth_route (invite b i) = record { is_public = false; roles = super_admin ∷ org_admin ∷ [] }
auth_route (billing_summary hours now) = record { is_public = false; roles = super_admin ∷ [] }

-- What class-validator decides of an e-mail address, and the services' libraries.
pub record AuthParts : Type 1 where
  pub is_email : String → Bool
  pub crypto : Crypto
  pub grouping : Grouping

-- `@IsInt() @Min(1) @Max(30)`
abbrev pub is_expiry : ℤ → Bool
is_expiry (pos n) = leb 1 n && leb n 30
is_expiry (negsuc n) = false

-- `Math.max(1, hours)` makes 1 of what is below it.
abbrev pub hours_of : Option ℤ → Option ℕ
hours_of none = none
hours_of (some (pos n)) = some n
hours_of (some (negsuc n)) = some 0

module _ (d : Deployment) (parts : AuthParts) where
  abbrev pub register_fits : RegisterBody → Bool
  unfolding has_length
  register_fits b =
      has_length 2 120 b.tenant_name
      && parts.is_email b.admin_email
      && optionally (has_length 1 120) b.admin_display_name
      && has_length 8 128 b.admin_password
      && optionally (λ domains. leb (length domains) 20) b.allowed_domains

  abbrev pub login_fits : String → String → String → Bool
  unfolding has_length
  login_fits tenant_id email password =
      d.validator.is_uuid tenant_id && parts.is_email email && has_length 8 128 password

  abbrev pub accept_fits : AcceptInvite → Bool
  unfolding has_length
  accept_fits p =
      has_length 12 128 p.token
      && optionally (has_length 1 120) p.display_name
      && has_length 8 128 p.password

  abbrev pub invite_fits : InviteBody → Bool
  invite_fits b = parts.is_email b.email && optionally is_expiry b.expires_in_days

  abbrev pub reply_as : {A : Type 0} → (A → AuthReply) → Result A → Result AuthReply
  reply_as f (ok a) = ok (f a)
  reply_as f (err e) = err e

  -- A call of the service by way of its controller.
  unfoldable pub call_auth : {A : Type 0} → (A → AuthReply) → Action Db A → Action Db AuthReply
  unfolding tcp_call run_safely
  call_auth f method db =
      let (result, left) = tcp_call d.transport (run_safely method) db in (reply_as f result, left)

  unfoldable pub handle_auth :
      AuthEndpoint → Option String → Option AuthenticatedUser → Action Db AuthReply
  handle_auth (register b i) tenant user = do
    lift (validate_body d (register_fits b))
    call_auth registered (
        register_tenant d.prisma parts.crypto
          (record {
            tenant_name = b.tenant_name;
            admin_email = b.admin_email;
            admin_display_name = b.admin_display_name;
            admin_password = some b.admin_password;
            allowed_domains = b.allowed_domains;
          })
          i)
  handle_auth (log_in t email password i) tenant user = do
    lift (validate_body d (login_fits t email password))
    call_auth session (
        login d.prisma d.env parts.crypto
          (record { tenant_id = some t; email = email; password = some password }) i)
  handle_auth (refresh token i) tenant user = do
    lift (validate_body d (has_length 32 512 token))
    call_auth session (refresh_session d.prisma d.env parts.crypto (some token) i)
  handle_auth (logout token now) tenant user = do
    lift (validate_body d (has_length 32 512 token))
    call_auth (λ _. done) (logout_session d.prisma d.env parts.crypto (some token) now)
  handle_auth (logout_all now) tenant user = do
    t ← lift (get_tenant tenant)
    call_auth (λ _. done)
        (logout_all_sessions d.prisma d.env parts.crypto (some (user_id_of user)) (some t) now)
  handle_auth (accept p i) tenant user = do
    lift (validate_body d (accept_fits p))
    call_auth accepted (accept_invite d.prisma d.env parts.crypto p i)
  handle_auth (invite b i) tenant user = do
    t ← lift (get_tenant tenant)
    lift (validate_body d (invite_fits b))
    call_auth invited (
        create_invite d.prisma d.env
          (record {
            tenant_id = t;
            invited_by_user_id = user_id_of user;
            email = b.email;
            role = or_default b.role learner;
            expires_in_days = nat_of b.expires_in_days;
          })
          i)
  handle_auth (billing_summary hours now) tenant user =
      call_auth summarized (billing_ops_summary d.prisma parts.grouping (hours_of hours) now)

  unfoldable pub serve_auth : Request → AuthEndpoint → Action Db AuthReply
  serve_auth request endpoint = do
    passed ← lift (before_handler d.verify (auth_route endpoint) request)
    handle_auth endpoint passed.1 passed.0
