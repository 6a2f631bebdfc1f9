-- ===== src/Throttle/Tests.antt =====
-- The chunk size manager with whole thousandths for numbers of type `double`.
use net_copy.Common.{
  ℕ, zero, suc, ◌+◌, ◌-◌, ◌*◌, ◌/◌, ◌≤◌, List, [], ◌∷◌, true, false, ◌==◌, min, max, arith,
}
use net_copy.Throttle.BandwidthLimiter.{BandwidthLimiter}
use net_copy.Throttle.ChunkSizeManager.{Double, init}
use net_copy.Throttle.ChunkSizeManager.Limits.{
  Within, Call, limits_set, max_set, parameters_set, was_reset, updated, calls, Shrinks,
  chosen_factor, calls-Within,
}

abbrev thousandths : Double
thousandths = record {
  Value = ℕ;
  of_nat = λ n. n * 1000;
  add = λ a b. a + b;
  sub = λ a b. a - b;
  mul = λ a b. a * b / 1000;
  div = λ a b. a * 1000 / b;
  smaller = λ a b. min a b;
  larger = λ a b. max a b;
  is_zero = λ a. a == 0;
  truncate = λ a. a / 1000;
}

times_le : (n f : ℕ) → f ≤ 1000 → n * f ≤ n * 1000
times_le zero f h = omega arith
times_le (suc n) f h = omega (arith, times_le n f h)

factor-Shrinks : (f : ℕ) → f ≤ 1000 → Shrinks thousandths f
factor-Shrinks f h n = omega (arith, times_le n f h)

-- Limits, transfers of both kinds, and a new upper limit below the size in use.
abbrev test_calls : List (Call thousandths)
test_calls =
    limits_set 5000 2000 90000
    ∷ updated 0 true 4000
    ∷ updated 60 true 80000
    ∷ parameters_set 2000 3000 500
    ∷ updated 70 false 0
    ∷ max_set 3000
    ∷ was_reset
    ∷ []

calls-Within_example :
    let m = calls thousandths test_calls (init thousandths 262144 8192 10485760 1100 500 300) in
    Within m.initial_chunk_size m.min_chunk_size m.max_chunk_size m.current_chunk_size
calls-Within_example =
    calls-Within thousandths 262144 8192 10485760 1100 500 300 test_calls
      (factor-Shrinks 500 (omega arith))
      (λ f. factor-Shrinks (chosen_factor thousandths f) (omega arith))

-- A limit of 1000 bytes in a second, three calls, and one more.
abbrev test_limiter : BandwidthLimiter
test_limiter = record { limit_bytes_per_second = 1000; next_available_time = 5 }

abbrev test_throttles : List (ℕ × ℕ)
test_throttles = (7, 500) ∷ (9, 0) ∷ (2000000000, 1000) ∷ []
