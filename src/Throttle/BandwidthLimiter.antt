-- ===== src/Throttle/BandwidthLimiter.antt =====
-- The class BandwidthLimiter of include/common/bandwidth_limiter.h and
-- src/common/bandwidth_limiter.cpp. Times are in nanoseconds of the steady clock, and the clock is an
-- argument of each call.
pub mod Rate
use net_copy.Common.{
  ℕ, ◌+◌, ◌*◌, ◌/◌, ◌%◌, ◌^◌, max, Bool, true, ◌==◌, ◌||◌, leb, ltb, if◌then◌else◌,
}
use net_copy.Throttle.ChunkSizeManager.{Double}

pub record BandwidthLimiter : Type 0 where
  pub limit_bytes_per_second : ℕ
  pub next_available_time : ℕ

abbrev pub init : ℕ → BandwidthLimiter
init now = record { limit_bytes_per_second = 0; next_available_time = now }

unfoldable pub set_limit_bytes_per_second : ℕ → ℕ → BandwidthLimiter → BandwidthLimiter
set_limit_bytes_per_second now bytes_per_second l = record l {
  limit_bytes_per_second = bytes_per_second;
  next_available_time = now;
}

-- A percentage of the network's bandwidth, which `get_network_bandwidth` measured. A `percent` below
-- zero counts as zero here.
unfoldable pub set_limit_percent : ℕ → ℕ → ℕ → BandwidthLimiter → BandwidthLimiter
set_limit_percent now baseline percent l =
    if percent == 0 || leb 100 percent
    then set_limit_bytes_per_second now 0 l
    else set_limit_bytes_per_second now (max (baseline * percent % 2 ^ 64 / 100) 1) l

module _ (D : Double) where
  -- The time that the bytes take, in whole nanoseconds.
  unfoldable pub delay : ℕ → ℕ → ℕ
  delay limit bytes =
      D.truncate (D.mul (D.div (D.of_nat bytes) (D.of_nat limit)) (D.of_nat 1000000000))

  -- `throttle`: the time at which it lets the caller go on, and the new state. Where it does not
  -- wait this is the time of the call.
  unfoldable pub throttle : ℕ → ℕ → BandwidthLimiter → ℕ × BandwidthLimiter
  throttle now bytes l =
      let start = max l.next_available_time now in
      if bytes == 0 || l.limit_bytes_per_second == 0
      then (now, l)
      else (start, record l { next_available_time = start + delay l.limit_bytes_per_second bytes })

abbrev pub is_enabled : BandwidthLimiter → Bool
is_enabled l = ltb 0 l.limit_bytes_per_second
