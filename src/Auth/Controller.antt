-- ===== src/Auth/Controller.antt =====
-- apps/auth-org-service/src/auth-org-service.controller.ts: how the errors of the service leave the
-- process.
use nestjs_saas.Exec.{
  Error, exception, rpc_exception, prisma_error, plain_error, Action, throw, try_catch,
}

-- The response of an `HttpException` that was made from a text holds that text.
abbrev pub map_to_rpc_exception : Error → Error
map_to_rpc_exception (exception status message) = rpc_exception status message
map_to_rpc_exception (rpc_exception status_code message) = rpc_exception 500 message
map_to_rpc_exception (prisma_error code) = rpc_exception 500 code
map_to_rpc_exception (plain_error message) = rpc_exception 500 message

module _ {ℓ κ} {S : Type ℓ} {A : Type κ} where
  unfoldable pub run_safely : Action S A → Action S A
  unfolding throw
  run_safely op = try_catch op (λ e. throw (map_to_rpc_exception e))
