-- ===== src/Gateway/Metrics/Counts.antt =====
-- apps/api-gateway/src/core/gateway-metrics.service.ts: what the counters count.
use nestjs_saas.Prelude.{
  ℕ, ◌+◌, Bool, false, List, [], ◌∷◌, leb, nat_eq, if◌then◌else◌, ◌≡◌, arith, length, keep,
}
use nestjs_saas.Js.Number.{ℤ}
use nestjs_saas.Gateway.Metrics.{
  StatusCount, Metrics, no_metrics, count_status, Outcome, responded, threw, thrown_status,
  served_all, served,
}

abbrev pub final_status : Outcome × ℤ → ℕ
final_status (responded status, d) = status
final_status (threw e, d) = thrown_status e

abbrev pub is_5xx : Outcome × ℤ → Bool
is_5xx r = leb 500 (final_status r)

abbrev pub is_thrown_5xx : Outcome × ℤ → Bool
is_thrown_5xx (responded status, d) = false
is_thrown_5xx (threw e, d) = leb 500 (thrown_status e)

abbrev pub count_of : ℕ → List StatusCount → ℕ
count_of status [] = 0
count_of status (c ∷ counts) =
    let rest = count_of status counts in
    if nat_eq c.status_code status then c.count + rest else rest

count_of-count_status :
    (status added : ℕ) (counts : List StatusCount)
    → count_of status (count_status added counts)
      ≡ (if nat_eq added status then 1 else 0) + count_of status counts
count_of-count_status status added [] = ground arith
count_of-count_status status added (c ∷ counts) =
    ground (arith, count_of-count_status status added counts)

totals :
    (requests : List (Outcome × ℤ)) (m : Metrics)
    → ((served_all requests m).total_requests ≡ length requests + m.total_requests)
      × ((served_all requests m).total_errors_5xx
          ≡ length (keep is_5xx requests)
            + length (keep is_thrown_5xx requests)
            + m.total_errors_5xx)
totals [] m = omega arith
totals ((responded s, d) ∷ requests) m = ground (arith, totals requests (served (responded s) d m))
totals ((threw e, d) ∷ requests) m = ground (arith, totals requests (served (threw e) d m))

counts :
    (status : ℕ) (requests : List (Outcome × ℤ)) (m : Metrics)
    → count_of status (served_all requests m).status_counts
      ≡ length (keep (λ r. nat_eq (final_status r) status) requests)
        + count_of status m.status_counts
counts status [] m = omega arith
counts status ((responded s, d) ∷ requests) m = ground (
  arith,
  counts status requests (served (responded s) d m),
  count_of-count_status status s m.status_counts,
)
counts status ((threw e, d) ∷ requests) m = ground (
  arith,
  counts status requests (served (threw e) d m),
  count_of-count_status status (thrown_status e) m.status_counts,
)

-- After any requests the counters hold the number of requests, and for each status how many were
-- answered with it. The number of 5xx errors counts each request that was answered with 500 or more,
-- and those of them that ended in an exception a second time.
pub served_all-counts :
    (requests : List (Outcome × ℤ)) (status : ℕ)
    → let m = served_all requests no_metrics in
      (m.total_requests ≡ length requests)
      × (m.total_errors_5xx ≡ length (keep is_5xx requests) + length (keep is_thrown_5xx requests))
      × (count_of status m.status_counts
          ≡ length (keep (λ r. nat_eq (final_status r) status) requests))
served_all-counts requests status =
    omega (arith, totals requests no_metrics, counts status requests no_metrics)
