-- ===== src/Gateway/Examples/Auth.antt =====
-- Concrete inputs for the theorem about the gateway's endpoints for authentication.
use nestjs_saas.Prelude.{ℕ, String, Option, none, some, true, [], ◌∷◌, ◌≡◌, refl, ◌==◌, eq_refl}
use nestjs_saas.Exec.{◌>>=◌}
use nestjs_saas.Js.Text.{trim, str_length}
use nestjs_saas.Auth.State.{RefreshToken, Db}
use nestjs_saas.Auth.Sessions.{logout_session}
use nestjs_saas.Auth.Controller.{run_safely}
use nestjs_saas.Courses.Dto.{has_length}
use nestjs_saas.Gateway.Guards.{Request, before_handler}
use nestjs_saas.Gateway.Rpc.{tcp_call}
use nestjs_saas.Auth.Operations.ByLists.{in_groups}
use nestjs_saas.Gateway.Auth.{AuthEndpoint, logout, AuthParts, call_auth, handle_auth, serve_auth}
use nestjs_saas.Gateway.Auth.Calls.{OneCall, serve_auth-OneCall}
use nestjs_saas.Gateway.Examples.Courses.{deployment, world}

abbrev parts : AuthParts
parts = record {
  is_email = λ email. true;
  crypto = record {
    hash = λ salt password. password;
    compare = λ password hashed. password == hashed;
    compare-hash = λ salt password. eq_refl password;
    sha256_hex = λ raw. raw;
    sign = λ payload expires_in. elim expires_in [ none ↦ none | some n ↦ some payload.user_id ];
    sign_seconds = λ payload n. refl;
  };
  grouping = in_groups;
}

abbrev raw_token : String
raw_token = "0123456789abcdef0123456789abcdef"

abbrev session_row : Option ℕ → RefreshToken
session_row revoked_at = record {
  id = "k1";
  user_id = "ann";
  tenant_id = "t1";
  token_hash = raw_token;
  expires_at = 1000;
  revoked_at = revoked_at;
}

abbrev tables : Db
tables = record world.auth { refresh_tokens = session_row none ∷ [] }

abbrev logout_request : Request
logout_request = record {
  method = "POST";
  path = some "/auth/logout";
  tenant_header = none;
  bearer = none;
  params_tenant_id = none;
  body_tenant_id = none;
  query_tenant_id = none;
}

abbrev logs_ann_out : AuthEndpoint
logs_ann_out = logout raw_token 5

-- The request is let in and revokes the token.
serve_auth_test :
    (serve_auth deployment parts logout_request logs_ann_out tables).1.refresh_tokens
    ≡ session_row (some 5) ∷ []
unfolding serve_auth handle_auth before_handler has_length call_auth tcp_call run_safely
    logout_session trim str_length ◌>>=◌
serve_auth_test = refl

serve_auth-OneCall_example :
    OneCall deployment parts logout_request logs_ann_out tables
      (serve_auth deployment parts logout_request logs_ann_out tables).1
serve_auth-OneCall_example = serve_auth-OneCall deployment parts logout_request logs_ann_out tables
