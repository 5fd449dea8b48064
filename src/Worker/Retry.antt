-- ===== src/Worker/Retry.antt =====
-- internal/retry/retry.go: how long a failed job waits.
use mini_sidekiq.Prelude.{ℕ, ◌+◌, ◌*◌, ◌^◌, ◌%◌, ◌≤◌, ◌<◌, arith, mul_mono, pow_mono}
use mini_sidekiq.Broker.RedisBroker.{second}

-- `draw` is the result of `rand.Intn(30)`. The source computes in float64, which is exact here: the
-- numbers are whole and below 2 ^ 53 as long as `attempt` is below 9741.
abbrev pub delay_seconds : ℕ → ℕ → ℕ
delay_seconds attempt draw = attempt ^ 4 + 15 + draw * (attempt + 1)

-- The int64 that `NextDelay` returns, as its 64 bits: from 2 ^ 63 it is negative.
unfoldable pub next_delay : ℕ → ℕ → ℕ
next_delay attempt draw = (delay_seconds attempt draw * second) % 2 ^ 64

draw_le : (attempt draw : ℕ) → draw < 30 → draw * (attempt + 1) ≤ 29 * (attempt + 1)
draw_le attempt draw d = mul_mono draw 29 _ _ (omega arith) (omega arith)

seconds_le :
    (attempt draw : ℕ) → attempt ≤ 309 → draw < 30 → delay_seconds attempt draw < 9116630386
seconds_le attempt draw h d = omega (arith, pow_mono attempt 309 4 h, draw_le attempt draw d)

-- Up to attempt 309 the delay does not overflow: it is attempt ^ 4 + 15 seconds, and up to 29 times
-- attempt + 1 seconds more, if the draw is below 30.
pub next_delay-bounds :
    (attempt draw : ℕ)
    → attempt ≤ 309
    → draw < 30
    → ((attempt ^ 4 + 15) * second ≤ next_delay attempt draw)
      × (next_delay attempt draw ≤ (attempt ^ 4 + 15 + 29 * (attempt + 1)) * second)
      × (next_delay attempt draw < 2 ^ 63)
unfolding next_delay
next_delay-bounds attempt draw h d =
    ground (arith, seconds_le attempt draw h d, draw_le attempt draw d)
