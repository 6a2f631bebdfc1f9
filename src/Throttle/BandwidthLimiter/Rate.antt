-- ===== src/Throttle/BandwidthLimiter/Rate.antt =====
-- The rate at which bytes go out.
use net_copy.Common.{ℕ, ◌+◌, ◌*◌, ◌≤◌, ◌≡◌, List, [], ◌∷◌}
use net_copy.Throttle.ChunkSizeManager.{Double}
use net_copy.Throttle.BandwidthLimiter.{BandwidthLimiter, delay, throttle}

module _ (D : Double) where
  -- The state after calls, each with its time and its bytes.
  abbrev pub throttle_all : List (ℕ × ℕ) → BandwidthLimiter → BandwidthLimiter
  throttle_all [] l = l
  throttle_all (c ∷ cs) l = throttle_all cs (throttle D c.0 c.1 l).1

  -- The bytes of the calls.
  abbrev pub total : List (ℕ × ℕ) → ℕ
  total [] = 0
  total (c ∷ cs) = c.1 + total cs

  -- The computed time of the bytes is short by less than a nanosecond.
  abbrev pub IsExact : ℕ → ℕ → Type 0
  IsExact limit bytes = bytes * 1000000000 ≤ (delay D limit bytes + 1) * limit

  -- The computed time of each of the calls is.
  abbrev pub AreExact : ℕ → List (ℕ × ℕ) → Type 0
  AreExact limit [] = Unit
  AreExact limit (c ∷ cs) = IsExact limit c.1 × AreExact limit cs

  -- From one state to another the limit stays, and the next time moves on by as long as the bytes
  -- take, less a nanosecond for each call.
  record Advances (l after : BandwidthLimiter) (bytes count : ℕ) : Type 0 where
    same_limit : after.limit_bytes_per_second ≡ l.limit_bytes_per_second
    taken : ℕ
    moved : l.next_available_time + taken ≤ after.next_available_time
    paid : bytes * 1000000000 ≤ (taken + count) * l.limit_bytes_per_second
