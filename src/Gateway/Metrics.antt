-- ===== src/Gateway/Metrics.antt =====
-- apps/api-gateway/src/core: the counters of gateway-metrics.service.ts, and where all-exceptions.filter.ts
-- and request-context.middleware.ts call them.
pub mod Counts
use nestjs_saas.Prelude.{ℕ, suc, ◌+◌, List, [], ◌∷◌, leb, nat_eq, if◌then◌else◌}
use nestjs_saas.Exec.{Error, exception, rpc_exception, prisma_error, plain_error}
use nestjs_saas.Js.Number.{ℤ, pos, negsuc}

pub record StatusCount : Type 0 where
  pub status_code : ℕ
  pub count : ℕ

pub record Metrics : Type 0 where
  pub total_requests : ℕ
  pub total_errors_5xx : ℕ
  pub total_duration_ms : ℕ
  pub status_counts : List StatusCount

abbrev pub no_metrics : Metrics
no_metrics = record {
  total_requests = 0;
  total_errors_5xx = 0;
  total_duration_ms = 0;
  status_counts = [];
}

-- `Math.max(0, durationMs)`
abbrev pub not_negative : ℤ → ℕ
not_negative (pos n) = n
not_negative (negsuc n) = 0

-- `statusCounts.set(statusCode, (statusCounts.get(statusCode) ?? 0) + 1)`
abbrev pub count_status : ℕ → List StatusCount → List StatusCount
count_status status [] = record { status_code = status; count = 1 } ∷ []
count_status status (c ∷ counts) =
    let rest = count_status status counts in
    if nat_eq c.status_code status then record c { count = suc c.count } ∷ counts else c ∷ rest

abbrev pub record_request : ℕ → ℤ → Metrics → Metrics
record_request status duration_ms m = record {
  total_requests = suc m.total_requests;
  total_errors_5xx = if leb 500 status then suc m.total_errors_5xx else m.total_errors_5xx;
  total_duration_ms = m.total_duration_ms + not_negative duration_ms;
  status_counts = count_status status m.status_counts;
}

abbrev pub record_5xx_error : Metrics → Metrics
record_5xx_error m = record m { total_errors_5xx = suc m.total_errors_5xx }

-- `exception instanceof HttpException ? exception.getStatus() : 500`
abbrev pub thrown_status : Error → ℕ
thrown_status (exception status message) = status
thrown_status (rpc_exception status_code message) = 500
thrown_status (prisma_error code) = 500
thrown_status (plain_error message) = 500

-- How the handling of a request ends: with a response, or with an exception that the filter answers.
pub data Outcome : Type 0 where
  responded : (status : ℕ) → Outcome
  threw : Error → Outcome

abbrev pub catch : Error → Metrics → Metrics
catch e m = if leb 500 (thrown_status e) then record_5xx_error m else m

-- The filter runs first, and the middleware's listener when the response is finished.
abbrev pub served : Outcome → ℤ → Metrics → Metrics
served (responded status) duration_ms m = record_request status duration_ms m
served (threw e) duration_ms m = record_request (thrown_status e) duration_ms (catch e m)

abbrev pub served_all : List (Outcome × ℤ) → Metrics → Metrics
served_all [] m = m
served_all ((outcome, duration_ms) ∷ requests) m =
    served_all requests (served outcome duration_ms m)
