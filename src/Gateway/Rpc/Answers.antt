-- ===== src/Gateway/Rpc/Answers.antt =====
-- apps/api-gateway/src/core/tcp-rpc.ts and apps/auth-org-service/src/auth-org-service.controller.ts:
-- which error a caller of the gateway sees.
use nestjs_saas.Prelude.{ℕ, String, leb, ◌&&◌, if◌then◌else◌, ◌==◌, ◌≡◌, arith, refl}
use nestjs_saas.Exec.{
  Result, Error, exception, rpc_exception, prisma_error, plain_error, Action, ok, err, message_of,
}
use nestjs_saas.Auth.Controller.{run_safely, map_to_rpc_exception}
use nestjs_saas.Gateway.Rpc.{
  Transport, fallback_message, says_exists, normalize_rpc_error, tcp_call,
}

-- The answer to an error of the auth service, said directly.
abbrev pub shown : String → String
shown message = if message == "" then fallback_message else message

abbrev pub kept_status : Error → ℕ
kept_status (exception status message) = if leb 400 status && leb status 599 then status else 500
kept_status (rpc_exception status_code message) = 500
kept_status (prisma_error code) = 500
kept_status (plain_error message) = 500

abbrev pub answer_to : Error → Error
answer_to e =
    let message = shown (message_of e) in
    exception (if says_exists message then 409 else kept_status e) message

abbrev pub answered : {A : Type 0} → Result A → Result A
answered (ok a) = ok a
answered (err e) = err (answer_to e)

module _ (transport : Transport) where
  normalized :
      (e : Error) → normalize_rpc_error (transport.received (map_to_rpc_exception e)) ≡ answer_to e
  unfolding normalize_rpc_error
  normalized (exception status message) = rw (transport.received_rpc status message) (ground arith)
  normalized (rpc_exception status_code message) =
      rw (transport.received_rpc 500 message) (ground arith)
  normalized (prisma_error code) = rw (transport.received_rpc 500 code) (ground arith)
  normalized (plain_error message) = rw (transport.received_rpc 500 message) (ground arith)

  module _ {S A : Type 0} where
    -- A call of the auth service by way of its controller, the TCP transport and the gateway: a
    -- method that returns is answered with what it returned; where it throws an `HttpException` the
    -- caller sees the same message, with the same status from 400 to 599; where it throws anything
    -- else, or with another status, the caller sees the message with status 500; but a message that
    -- says that something already exists is always a 409, and an empty message is replaced by a
    -- fixed one. The tables are as the method left them.
    pub tcp_call-run_safely :
        (method : Action S A) (s : S)
        → tcp_call transport (run_safely method) s ≡ (answered (method s).0, (method s).1)
    unfolding tcp_call run_safely
    tcp_call-run_safely method s = go (method s).0 refl
      where
        go :
            (r : Result A)
            → (method s).0 ≡ r
            → tcp_call transport (run_safely method) s ≡ (answered (method s).0, (method s).1)
        go (ok a) returned = ground (arith, returned)
        go (err e) threw = ground (arith, threw, normalized e)
