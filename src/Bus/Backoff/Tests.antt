-- ===== src/Bus/Backoff/Tests.antt =====
-- The default backoff: one second, doubled up to thirty.
use Prim.Native.Nat.{min}
use sse_eventbus_go.Prelude.{ℕ, ◌-◌, ◌*◌, ◌^◌, ◌≡◌, refl, arith}
use sse_eventbus_go.Bus.Backoff.{retry_delay, retry_delay_exact}

abbrev base : ℕ
base = 1_000_000_000

abbrev cap : ℕ
cap = 30_000_000_000

fourth : retry_delay base cap 4 ≡ 8_000_000_000
unfolding retry_delay
fourth = refl

late : retry_delay base cap 200 ≡ cap
unfolding retry_delay
late = refl

retry_delay_exact_example : retry_delay base cap 4 ≡ min (base * 2 ^ (4 - 1)) cap
retry_delay_exact_example = retry_delay_exact base cap 4 (omega arith) (omega arith) (omega arith)
