-- ===== src/Analytics/Backoff.antt =====
-- apps/analytics-webhook-service/src/analytics-webhook-service.service.ts: `backoffMs`,
-- `circuitFailureThreshold` and `circuitOpenMs`.
use native.Mathlib.Nat.{mul-le-mul_left}
use nestjs_saas.Prelude.{
  ℕ, zero, suc, ◌+◌, ◌*◌, ◌/◌, ◌≤◌, ◌<◌, String, Option, none, some, arith, or_default,
}
use nestjs_saas.Js.Number.{math_max, nat_min, nat_max, parse_int}

pub record AnalyticsEnv : Type 0 where
  pub circuit_failure_threshold : Option String
  pub circuit_open_ms : Option String

-- `Math.random()` is a number of steps of 2 ^ -53, below `random_steps`.
abbrev pub random_steps : ℕ
random_steps = 9007199254740992

abbrev power_of_two : ℕ → ℕ
power_of_two zero = 1
power_of_two (suc n) = 2 * power_of_two n

abbrev pub exponential_ms : ℕ → ℕ
exponential_ms attempt =
    nat_min (60 * 60 * 1000) (30000 * power_of_two (nat_min 10 (nat_max 0 attempt)))

-- `Math.round(exp * (0.8 + random * 0.4))`, without the rounding of the products to doubles.
abbrev pub jittered : ℕ → ℕ → ℕ
jittered exp random =
    (8 * random_steps * exp + 4 * (exp * random) + 5 * random_steps) / (10 * random_steps)

unfoldable pub backoff_ms : ℕ → ℕ → ℕ
backoff_ms attempt random = jittered (exponential_ms attempt) random

unfoldable pub circuit_failure_threshold : AnalyticsEnv → ℕ
unfolding parse_int
circuit_failure_threshold env = elim (parse_int (or_default env.circuit_failure_threshold "5")) [
  | none ↦ 5
  | some n ↦ math_max 1 n
]

unfoldable pub circuit_open_ms : AnalyticsEnv → ℕ
unfolding parse_int
circuit_open_ms env = elim (parse_int (or_default env.circuit_open_ms "180000")) [
  | none ↦ 180000
  | some n ↦ math_max 10000 n
]

power_of_two-pos : (n : ℕ) → 1 ≤ power_of_two n
power_of_two-pos zero = omega arith
power_of_two-pos (suc n) = omega (arith, power_of_two-pos n)

capped : (x : ℕ) → 30000 ≤ x → (30000 ≤ nat_min 3600000 x) × (nat_min 3600000 x ≤ 3600000)
capped x h = ground arith

exponential-bounds :
    (attempt : ℕ) → (30000 ≤ exponential_ms attempt) × (exponential_ms attempt ≤ 3600000)
exponential-bounds attempt =
    let p = power_of_two-pos (nat_min 10 (nat_max 0 attempt)) in
    capped (30000 * power_of_two (nat_min 10 (nat_max 0 attempt))) (omega (arith, p))

jittered-bounds :
    (exp random : ℕ)
    → exp * random ≤ exp * random_steps
    → (8 * exp ≤ 10 * jittered exp random + 5) × (10 * jittered exp random ≤ 12 * exp + 5)
jittered-bounds exp random h = (omega (arith, h), omega (arith, h))

within :
    (e q : ℕ)
    → (30000 ≤ e) × (e ≤ 3600000)
    → (8 * e ≤ 10 * q + 5) × (10 * q ≤ 12 * e + 5)
    → (24000 ≤ q) × (q ≤ 4320000)
within e q (least, most) (low, high) = (omega arith, omega arith)

-- The wait before the next attempt is within 24 seconds and 72 minutes, and within a fifth of 30
-- seconds times two to the number of the attempt, capped at an hour, up to rounding.
pub backoff_ms-bounds :
    (attempt random : ℕ)
    → random < random_steps
    → (24000 ≤ backoff_ms attempt random)
      × (backoff_ms attempt random ≤ 4320000)
      × (8 * exponential_ms attempt ≤ 10 * backoff_ms attempt random + 5)
      × (10 * backoff_ms attempt random ≤ 12 * exponential_ms attempt + 5)
unfolding backoff_ms
backoff_ms-bounds attempt random h =
    let e = exponential_ms attempt in
    let (low, high) = jittered-bounds e random (mul-le-mul_left e (omega (arith, h))) in
    let (least, most) = within e (jittered e random) (exponential-bounds attempt) (low, high) in
    (least, most, low, high)
