-- ===== src/Consumer/Backoff.antt =====
-- How long the worker waits before a retry.
use tradecast.Prelude.{
  ℕ, ◌+◌, ◌-◌, ◌*◌, ◌^◌, ◌≤◌, ◌≡◌, negsuc, arith, float, float-lower, float-scaled_lower,
}
use tradecast.Config.{WorkerConfig}
use tradecast.Auth.Hmac.{duration_mod}
use tradecast.Consumer.{backoff}

-- The wait before a cut: the base, doubled with every attempt, and the jitter, in nanoseconds.
abbrev pub raw_wait : WorkerConfig → ℕ → ℕ → ℕ
raw_wait cfg jitter attempt = cfg.base_backoff * 2 ^ attempt + jitter * 1_000_000

-- the same in float64
abbrev float_wait : WorkerConfig → ℕ → ℕ → ℕ
float_wait cfg jitter attempt = float (float cfg.base_backoff * 2 ^ attempt + jitter * 1_000_000)

-- If the base doubled with every attempt is 2 ^ 63 nanoseconds or more, the wait is, on amd64, the
-- least duration, which is negative, whatever the largest wait and the jitter are: the worker does
-- not wait at all.
pub backoff_overflow :
    (cfg : WorkerConfig) (jitter attempt : ℕ)
    → duration_mod ≤ cfg.base_backoff * 2 ^ attempt
    → backoff cfg jitter attempt ≡ negsuc (duration_mod - 1)
unfolding backoff
backoff_overflow cfg jitter attempt h =
    let scaled = float-scaled_lower cfg.base_backoff attempt 63 h in
    ground (
      arith,
      float-lower (float cfg.base_backoff * 2 ^ attempt + jitter * 1_000_000) 63
          (omega (arith, scaled)),
    )
