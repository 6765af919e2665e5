-- ===== src/Bus/Backoff.antt =====
-- bus.go: the retry delay that a worker computes after a failed attempt.
mod Tests
use Prim.Native.Nat.{min}
use native.Mathlib.Nat.{pow-suc, pow-le-pow_right}
use sse_eventbus_go.Prelude.{
  ℕ, zero, suc, ◌+◌, ◌-◌, ◌*◌, ◌/◌, ◌%◌, ◌^◌, ◌≤◌, ◌<◌, Bool, ◌≡◌, refl, arith, ltb, if◌then◌else◌,
  ◌∙◌, inl, inr, Bool-cases, ltb→lt, dec_lt, true, false,
}

-- `delay *= 2` on an int64 that is not negative, as a bit pattern.
pub double : ℕ → ℕ
double delay = (delay * 2) % 2 ^ 64

-- The loop with its rounds left; the `break` returns the cap.
pub backoff_loop : ℕ → ℕ → ℕ → ℕ
unfolding double
backoff_loop zero retry_max delay = delay
backoff_loop (suc rounds) retry_max delay =
    let rest = backoff_loop rounds retry_max (double delay) in
    if ltb (retry_max / 2) delay then retry_max else rest

-- The delay before the next attempt, from the number of attempts made.
unfoldable pub retry_delay : ℕ → ℕ → ℕ → ℕ
unfolding backoff_loop
retry_delay retry_base retry_max attempts =
    min (backoff_loop (min (attempts - 1) 63) retry_max retry_base) retry_max

pow_pos : (k : ℕ) → 1 ≤ 2 ^ k
pow_pos zero = omega arith
pow_pos (suc k) = omega (arith, pow-suc 2 k, pow_pos k)

mul_ge : (d p : ℕ) → 1 ≤ p → d ≤ d * p
mul_ge d p h = grind arith

mul_ge' : (d p : ℕ) → 1 ≤ d → p ≤ d * p
mul_ge' d p h = grind arith

double_small : (d : ℕ) → d * 2 < 2 ^ 64 → double d ≡ d * 2
unfolding double
double_small d h = omega arith

backoff_loop-min :
    (k m d : ℕ) → 1 ≤ d → d ≤ m → m < 2 ^ 63 → min (backoff_loop k m d) m ≡ min (d * 2 ^ k) m
unfolding backoff_loop
backoff_loop-min zero m d h l b = omega arith
backoff_loop-min (suc k) m d h l b = elim (Bool-cases (ltb (m / 2) d)) [
  | inl over ↦
      let half = ltb→lt (m / 2) d over in
      rw (over, pow-suc 2 k) (omega (arith, mul_ge d (2 ^ k) (pow_pos k)))
  | inr under ↦
      let half : d ≤ m / 2 = ground arith in
      let step : double d ≡ d * 2 = double_small d (omega arith) in
      rw (under, step, backoff_loop-min k m (d * 2) (omega arith) (omega arith) b, pow-suc 2 k)
        (omega arith)
]

-- With a positive base under its cap, and a cap that an int64 holds, the delay is the base doubled
-- once for each attempt after the first, cut off at the cap: no doubling overflows, and the limit of
-- 63 rounds changes nothing.
pub retry_delay_exact :
    (retry_base retry_max attempts : ℕ)
    → 1 ≤ retry_base
    → retry_base ≤ retry_max
    → retry_max < 2 ^ 63
    → retry_delay retry_base retry_max attempts ≡ min (retry_base * 2 ^ (attempts - 1)) retry_max
unfolding retry_delay
retry_delay_exact d m n h l b = backoff_loop-min (min (n - 1) 63) m d h l b ∙ capped (n - 1) d m h b
  where
    capped : (k d m : ℕ) → 1 ≤ d → m < 2 ^ 63 → min (d * 2 ^ min k 63) m ≡ min (d * 2 ^ k) m
    capped k d m h b = elim (dec_lt k 63) [
      | yes few ↦ let same : min k 63 ≡ k = omega arith in rw same
      | no many ↦
          let same : min k 63 ≡ 63 = omega arith in
          let first = pow-le-pow_right {n = 2} (omega arith) {i = 63} {j = k} (omega arith) in
          rw same (omega (arith, mul_ge' d (2 ^ k) h, mul_ge' d (2 ^ 63) h, first))
    ]
