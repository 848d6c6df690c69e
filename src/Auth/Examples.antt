-- ===== src/Auth/Examples.antt =====
-- Concrete inputs for the theorems about apps/auth-org-service.
mod Operations
use nestjs_saas.Prelude.{
  ◌+◌, ◌*◌, ◌≤◌, none, some, true, ◌&&◌, [], ◌∷◌, Memᴰ, ◌≡◌, ◌≢◌, ◌⊎◌, refl, arith, inl, ◌==◌,
  eq_iff, eq_refl, exists,
}
use nestjs_saas.Exec.{Error, ok, err, ◌>>=◌, unauthorized}
use nestjs_saas.Js.Text.{trim, str_length, decimal}
use nestjs_saas.Js.Number.{parse_int}
use nestjs_saas.Common.Roles.{org_admin, learner}
use nestjs_saas.Common.Tiers.{free}
use nestjs_saas.Common.Seats.{is_active_learner_seat}
use nestjs_saas.Auth.State.{
  Tenant, User, Membership, Invite, RefreshToken, Db, Env, Crypto, seat_grace_days,
  free_tier_seat_limit, access_ttl_sec, refresh_ttl_ms,
}
use nestjs_saas.Auth.Domains.{normalize_email, ensure_domain_allowed, domain_from_email}
use nestjs_saas.Auth.Seats.{
  check_seats, counts_as_seat, active_learner_seats, included_seats,
  assert_seat_capacity_for_new_active_learner,
}
use nestjs_saas.Auth.Tenants.{trimmed_or_null}
use nestjs_saas.Auth.Invites.{
  AcceptInvite, AcceptInputs, AcceptedInvite, open_invite, seats_for, admit, accept_invite,
}
use nestjs_saas.Auth.Sessions.{
  Login, LoginInputs, RefreshInputs, Session, session_of, login, refresh_session, logout_session,
  logout_all_sessions,
}
use nestjs_saas.Prisma.ByLists.{by_lists}
use nestjs_saas.Auth.Seats.Policy.{policy_input, counts_as_seat-is_active_learner_seat}
use nestjs_saas.Auth.Seats.Capacity.{accept_invite_within_seats}
use nestjs_saas.Auth.Invites.SingleUse.{HasDistinctTokens, accept_invite_once}
use nestjs_saas.Auth.Invites.Roles.{NoSuperAdmin}
use nestjs_saas.Auth.Sessions.Rotation.{
  HasDistinctHashes, refresh_session_once, logout_session_refused, logout_all_sessions_refused,
}
use nestjs_saas.Auth.Sessions.Credentials.{
  IsComplete, HasCredentials, login-HasCredentials, accept_invite-login,
}
use nestjs_saas.Auth.Calls.{accepts, run, run-NoSuperAdmin}

-- Passwords and tokens stand for their own hashes.
abbrev plain : Crypto
plain = record {
  hash = λ salt password. password;
  compare = λ password hashed. password == hashed;
  compare-hash = λ salt password. eq_refl password;
  sha256_hex = λ raw. raw;
  sign = λ payload expires_in. elim expires_in [ none ↦ none | some n ↦ some payload.user_id ];
  sign_seconds = λ payload n. refl;
}

abbrev unset : Env
unset = record {
  free_included_learner_seats = none;
  seat_grace_days = none;
  jwt_access_ttl_sec = none;
  refresh_ttl_days_ms = some (30 * 86400000);
  smtp_host = none;
  smtp_user = none;
  smtp_pass = none;
}

abbrev acme : Tenant
acme = record {
  id = "t1";
  updated_at = 0;
  name = "Acme";
  subscription_tier = free;
  allowed_domains = "acme.org" ∷ [];
  stripe_customer_id = none;
  stripe_subscription_id = none;
  included_learner_seats = none;
  seat_billing_period_days = 30;
}

abbrev boss : User
boss = record {
  id = "u1";
  tenant_id = "t1";
  email = "boss@acme.org";
  display_name = none;
  password_hash = "letmein1";
  last_login_at = none;
  role = org_admin;
}

abbrev invited : Invite
invited = record {
  id = "i1";
  tenant_id = "t1";
  email = "ann@acme.org";
  role = learner;
  token = "abc";
  expires_at = 1000;
  used_at = none;
  invited_by_user_id = "u1";
}

abbrev start : Db
start = record {
  tenants = acme ∷ [];
  users = boss ∷ [];
  memberships = [];
  refresh_tokens = [];
  invites = invited ∷ [];
  stripe_webhook_events = [];
}

abbrev acceptance : AcceptInvite
acceptance = record { token = "abc"; display_name = none; password = " secret12 " }

abbrev accept_inputs : AcceptInputs
accept_inputs = record {
  checked_at = 10;
  seats_at = 11;
  activated_at = 12;
  active_at = 13;
  used_at = 14;
  user_id = "u2";
  salt = "s";
}

-- Named on a line to open all that an acceptance computes with.
abbrev call_definitions : Unit {0}
unfolding accept_invite open_invite seats_for admit assert_seat_capacity_for_new_active_learner
    check_seats active_learner_seats counts_as_seat ensure_domain_allowed domain_from_email
    normalize_email trimmed_or_null free_tier_seat_limit decimal ◌>>=◌ str_length
call_definitions = tt

abbrev ann : AcceptedInvite
ann = record { tenant_id = "t1"; user_id = "u2"; email = "ann@acme.org"; role = learner }

accepted : Db
unfolding call_definitions
accepted = (accept_invite by_lists unset plain acceptance accept_inputs start).1

accepted_lem :
    accept_invite by_lists unset plain acceptance accept_inputs start ≡ (ok ann, accepted)
unfolding call_definitions accepted
accepted_lem = refl

one_token : HasDistinctTokens (invited ∷ [])
one_token i j (Memᴰ.head p) (Memᴰ.head q) e = rw (p, q)
one_token i j (Memᴰ.head p) (Memᴰ.tail m) e = elim m [ ]
one_token i j (Memᴰ.tail m) _ e = elim m [ ]

accept_invite_once_example :
    accept_invite by_lists unset plain acceptance accept_inputs accepted ≢ (ok ann, accepted)
accept_invite_once_example =
    accept_invite_once by_lists unset plain acceptance acceptance accept_inputs accept_inputs start
      accepted accepted ann ann one_token accepted_lem refl

accept_invite_within_seats_example :
    active_learner_seats by_lists unset accepted acme 20 ≤ included_seats unset acme
unfolding seat_grace_days
accept_invite_within_seats_example =
    accept_invite_within_seats by_lists unset plain acceptance accept_inputs start accepted ann acme
      20 accepted_lem refl refl refl tt (omega arith)

one_seat : active_learner_seats by_lists unset accepted acme 20 ≡ 1
unfolding call_definitions accepted
one_seat = refl

run-NoSuperAdmin_example :
    NoSuperAdmin (run by_lists unset plain start (accepts acceptance accept_inputs ∷ []))
run-NoSuperAdmin_example =
    run-NoSuperAdmin by_lists unset plain start (accepts acceptance accept_inputs ∷ [])
      (record { users = ((λ e. cc), tt); invites = ((λ e. cc), tt) })

abbrev ann_login : Login
ann_login = record { tenant_id = some "t1"; email = " Ann@acme.org"; password = some "secret12" }

abbrev login_inputs : LoginInputs
login_inputs = record {
  login_at = 20;
  active_at = 20;
  issued_at = 21;
  raw_token = "r1";
  row_id = "k1";
}

ann_login-IsComplete : IsComplete by_lists unset plain ann_login
unfolding trim normalize_email
ann_login-IsComplete = record {
  tenant_id = λ e. ground (arith, eq_iff "t1" "");
  email = λ e. ground (arith, eq_iff "ann@acme.org" "");
  password = λ e. ground (arith, eq_iff "secret12" "");
}

accept_invite-login_example :
    (s : Session) × ((login by_lists unset plain ann_login login_inputs accepted).0 ≡ ok s)
    × (s.user.user_id ≡ "u2")
    × (s.user.tenant_id ≡ "t1")
    × (s.user.role ≡ learner)
    × (s.access_expires_in ≡ some 900)
    × (s.refresh_expires_at ≡ 21 + 30 * 86400000)
unfolding call_definitions accepted trim normalize_email access_ttl_sec refresh_ttl_ms parse_int
accept_invite-login_example =
    accept_invite-login by_lists unset plain acceptance accept_inputs start accepted ann ann_login
      login_inputs 900 (30 * 86400000) refl refl accepted_lem ann_login-IsComplete refl refl refl tt

login-HasCredentials_example :
    ((x : Error) × (login by_lists unset plain ann_login login_inputs accepted ≡ (err x, accepted)))
    ⊎ HasCredentials by_lists unset plain ann_login accepted
login-HasCredentials_example =
    login-HasCredentials by_lists unset plain ann_login login_inputs accepted

logged_in : Db
unfolding login call_definitions accepted refresh_ttl_ms access_ttl_sec
logged_in = (login by_lists unset plain ann_login login_inputs accepted).1

abbrev first_token : RefreshToken
first_token = record {
  id = "k1";
  user_id = "u2";
  tenant_id = "t1";
  token_hash = "r1";
  expires_at = 21 + 30 * 86400000;
  revoked_at = none;
}

logged_in-tokens : logged_in.refresh_tokens ≡ first_token ∷ []
unfolding logged_in
logged_in-tokens = refl

one_hash : HasDistinctHashes (first_token ∷ [])
one_hash t u (Memᴰ.head p) (Memᴰ.head q) e = rw (p, q)
one_hash t u (Memᴰ.head p) (Memᴰ.tail m) e = elim m [ ]
one_hash t u (Memᴰ.tail m) _ e = elim m [ ]

abbrev refresh_inputs : RefreshInputs
refresh_inputs = record {
  checked_at = 30;
  revoked_at = 30;
  issued_at = 31;
  raw_token = "r2";
  row_id = "k2";
}

abbrev after_refresh : Db → Db
after_refresh db = (refresh_session by_lists unset plain (some "r1") refresh_inputs db).1

refresh_session_once_example :
    refresh_session by_lists unset plain (some "r1") refresh_inputs (after_refresh logged_in)
    ≡ (err (unauthorized "Invalid or expired refresh token"), after_refresh logged_in)
unfolding logged_in refresh_session trim refresh_ttl_ms access_ttl_sec
refresh_session_once_example =
    refresh_session_once by_lists unset plain (some "r1") refresh_inputs refresh_inputs logged_in
      (after_refresh logged_in) _ one_hash refl

abbrev after_logout : Db → Db
after_logout db = (logout_session by_lists unset plain (some "r1") 25 db).1

logout_session_refused_example :
    refresh_session by_lists unset plain (some "r1") refresh_inputs (after_logout logged_in)
    ≡ (err (unauthorized "Invalid or expired refresh token"), after_logout logged_in)
unfolding logged_in logout_session trim
logout_session_refused_example =
    logout_session_refused by_lists unset plain (some "r1") 25 refresh_inputs logged_in
      (after_logout logged_in) one_hash refl

abbrev after_logout_all : Db → Db
after_logout_all db = (logout_all_sessions by_lists unset plain (some "u9") (some "t1") 25 db).1

refreshed : Session
unfolding logged_in refresh_session logout_all_sessions trim access_ttl_sec
refreshed =
    session_of by_lists unset plain
      (record { user_id = "u2"; tenant_id = "t1"; role = learner; subscription_tier = free }) "u2"
      "r2" (31 + 30 * 86400000)

logout_all_sessions_refused_example : refreshed.user.user_id ≢ "u9"
unfolding logged_in logout_all_sessions refresh_session trim refreshed refresh_ttl_ms access_ttl_sec
logout_all_sessions_refused_example =
    logout_all_sessions_refused by_lists unset plain "u9" "t1" (some "r1") 25 refresh_inputs
      logged_in (after_logout_all logged_in) _ refreshed
      ((λ e. ground (arith, eq_iff "u2" "u9")), tt) refl refl

abbrev ann_membership : Membership
ann_membership = record {
  tenant_id = "t1";
  user_id = "u1";
  is_active = true;
  activated_at = none;
  last_seat_qualifying_activity_at = some 5;
  counts_toward_learner_seats = true;
}

counts_as_seat-is_active_learner_seat_example :
    counts_as_seat acme (boss ∷ []) 20 ann_membership ≡ (
      ("t1" == "t1")
      && exists
          (λ u. (u.id == "u1") && is_active_learner_seat (policy_input acme u ann_membership) 20)
          (boss ∷ []))
counts_as_seat-is_active_learner_seat_example =
    counts_as_seat-is_active_learner_seat acme (boss ∷ []) 20 ann_membership
