-- ===== src/Gateway/Rpc.antt =====
-- apps/api-gateway/src/core/tcp-rpc.ts: the calls of the services over TCP and the errors that they
-- end in.
pub mod Answers
use nestjs_saas.Prelude.{
  ℕ, String, Option, none, some, Bool, List, [], ◌∷◌, leb, ◌&&◌, if◌then◌else◌, ◌==◌, ◌≡◌,
  or_default,
}
use nestjs_saas.Exec.{
  Error, exception, rpc_exception, prisma_error, plain_error, Action, throw, try_catch, conflict,
}
use nestjs_saas.Js.Text.{to_lower_case, includes}
use Prim.Native.String.{◌++◌ as append}

-- A `status` or `statusCode`: a number, or a value of another type.
pub data StatusValue : Type 0 where
  number : ℕ → StatusValue
  not_number : StatusValue

pub data MessageValue : Type 0 where
  text : String → MessageValue
  texts : List String → MessageValue

-- The fields that the code reads, with those of `error` and `response`.
pub record RpcError : Type 0 where
  pub status : Option StatusValue
  pub status_code : Option StatusValue
  pub message : Option MessageValue
  pub error_status : Option StatusValue
  pub error_status_code : Option StatusValue
  pub error_message : Option MessageValue
  pub response_status : Option StatusValue
  pub response_status_code : Option StatusValue
  pub response_message : Option MessageValue

-- `a ?? b`
abbrev pub or_else : {A : Type 0} → Option A → Option A → Option A
or_else none b = b
or_else (some a) b = some a

abbrev pub status_of : RpcError → Option StatusValue
status_of e = or_else e.status (
    or_else e.status_code (
      or_else e.error_status
        (or_else e.error_status_code (or_else e.response_status e.response_status_code))))

abbrev pub fallback_message : String
fallback_message = "Downstream service error"

-- `values.join(', ')`
abbrev pub join : List String → String
join [] = ""
join (value ∷ []) = value
join (value ∷ next ∷ values) = append value (append ", " (join (next ∷ values)))

abbrev pub text_of : MessageValue → String
text_of (text value) = if value == "" then fallback_message else value
text_of (texts values) = join values

abbrev pub message_text : RpcError → String
message_text e = text_of (
    or_default (or_else e.message (or_else e.error_message e.response_message))
      (text fallback_message))

abbrev pub with_status : Option StatusValue → String → Error
with_status none message = exception 500 message
with_status (some not_number) message = exception 500 message
with_status (some (number status)) message =
    if leb 400 status && leb status 599 then exception status message else exception 500 message

-- `/already exists/i`
unfoldable pub says_exists : String → Bool
unfolding includes to_lower_case
says_exists message = includes "already exists" (to_lower_case message)

unfoldable pub normalize_rpc_error : RpcError → Error
normalize_rpc_error e =
    let message = message_text e in
    if says_exists message then conflict message else with_status (status_of e) message

abbrev no_fields : RpcError
no_fields = record {
  status = none;
  status_code = none;
  message = none;
  error_status = none;
  error_status_code = none;
  error_message = none;
  response_status = none;
  response_status_code = none;
  response_message = none;
}

-- The object that an `RpcException` was made from, and what stands for any other error.
abbrev pub rpc_object : ℕ → String → RpcError
rpc_object status_code message = record no_fields {
  status_code = some (number status_code);
  message = some (text message);
}

abbrev pub unknown_error : RpcError
unknown_error = record no_fields {
  status = some not_number;
  message = some (text "Internal server error");
}

-- The TCP transport of @nestjs/microservices: what the client's observable fails with when a handler
-- throws.
pub record Transport : Type 0 where
  pub received : Error → RpcError
  pub received_rpc :
      (status_code : ℕ) (message : String)
      → received (rpc_exception status_code message) ≡ rpc_object status_code message
  pub received_exception :
      (status : ℕ) (message : String) → received (exception status message) ≡ unknown_error
  pub received_prisma : (code : String) → received (prisma_error code) ≡ unknown_error
  pub received_plain : (message : String) → received (plain_error message) ≡ unknown_error

module _ {ℓ κ} (transport : Transport) {S : Type ℓ} {A : Type κ} where
  unfoldable pub tcp_call : Action S A → Action S A
  unfolding throw
  tcp_call op = try_catch op (λ e. throw (normalize_rpc_error (transport.received e)))
