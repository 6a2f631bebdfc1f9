-- ===== src/Throttle/ChunkSizeManager.antt =====
-- The class ChunkSizeManager of include/common/chunk_size_manager.h and
-- src/common/chunk_size_manager.cpp. Numbers of type `double` are not of the language: their
-- operations are a parameter. The clock is an argument, in milliseconds. `last_update_time_`, which
-- nothing reads, is left out.
pub mod Limits
use net_copy.Common.{
  ℕ, zero, suc, ◌+◌, ◌-◌, ◌%◌, ◌^◌, min, max, List, [], ◌∷◌, ◌++◌, Bool, true, false, ltb, not,
  if◌then◌else◌,
}

-- What the code does with numbers of type `double`. `truncate` is the conversion to `size_t`.
pub record Double : Type 1 where
  pub Value : Type 0
  pub of_nat : ℕ → Value
  pub add : Value → Value → Value
  pub sub : Value → Value → Value
  pub mul : Value → Value → Value
  pub div : Value → Value → Value
  pub smaller : Value → Value → Value
  pub larger : Value → Value → Value
  pub is_zero : Value → Bool
  pub truncate : Value → ℕ

module _ (D : Double) where
  pub record ChunkSizeManager : Type 0 where
    pub initial_chunk_size : ℕ
    pub min_chunk_size : ℕ
    pub max_chunk_size : ℕ
    pub increase_factor : D.Value
    pub decrease_factor : D.Value
    pub ema_alpha : D.Value
    pub current_chunk_size : ℕ
    pub smoothed_throughput : D.Value
    pub throughput_history : List (ℕ × ℕ)

  -- A decimal number: `n / d`.
  abbrev decimal : ℕ → ℕ → D.Value
  decimal n d = D.div (D.of_nat n) (D.of_nat d)

  -- `ABSOLUTE_MIN_CHUNK_SIZE`
  abbrev pub absolute_min_chunk_size : ℕ
  absolute_min_chunk_size = 1024

  unfoldable pub normalize_limits : ChunkSizeManager → ChunkSizeManager
  normalize_limits m =
      let low = max m.min_chunk_size absolute_min_chunk_size in
      let high = max m.max_chunk_size low in
      record m {
        min_chunk_size = low;
        max_chunk_size = high;
        initial_chunk_size = min (max m.initial_chunk_size low) high;
        current_chunk_size = min (max m.current_chunk_size low) high;
      }

  -- The constructor.
  unfoldable pub init : ℕ → ℕ → ℕ → D.Value → D.Value → D.Value → ChunkSizeManager
  init initial low high increase decrease alpha = normalize_limits (record {
    initial_chunk_size = initial;
    min_chunk_size = low;
    max_chunk_size = high;
    increase_factor = increase;
    decrease_factor = decrease;
    ema_alpha = alpha;
    current_chunk_size = initial;
    smoothed_throughput = D.of_nat 0;
    throughput_history = [];
  })

  unfoldable pub set_adaptation_parameters :
      D.Value → D.Value → D.Value → ChunkSizeManager → ChunkSizeManager
  set_adaptation_parameters increase decrease alpha m = record m {
    increase_factor = D.larger (decimal 101 100) increase;
    decrease_factor = D.smaller (decimal 99 100) (D.larger (decimal 1 10) decrease);
    ema_alpha = D.smaller (D.of_nat 1) (D.larger (decimal 1 100) alpha);
  }

  unfoldable pub reset : ChunkSizeManager → ChunkSizeManager
  reset m = record m {
    current_chunk_size = m.initial_chunk_size;
    smoothed_throughput = D.of_nat 0;
    throughput_history = [];
  }

  unfoldable pub set_limits : ℕ → ℕ → ℕ → ChunkSizeManager → ChunkSizeManager
  set_limits initial low high m = reset (
      normalize_limits
        (record m { initial_chunk_size = initial; min_chunk_size = low; max_chunk_size = high }))

  unfoldable pub set_max_chunk_size : ℕ → ChunkSizeManager → ChunkSizeManager
  set_max_chunk_size high m =
      let n = normalize_limits (record m { max_chunk_size = high }) in
      record n { current_chunk_size = min n.current_chunk_size n.max_chunk_size }

  -- The sum of the bytes, in 64 bits.
  total : List (ℕ × ℕ) → ℕ
  total [] = 0
  total (entry ∷ entries) = (entry.0 + total entries) % 2 ^ 64

  abbrev pub front : List (ℕ × ℕ) → ℕ × ℕ
  front [] = (0, 0)
  front (entry ∷ entries) = entry

  -- The branch of a transfer that failed.
  unfoldable pub after_failure : ℕ → ChunkSizeManager → ChunkSizeManager
  after_failure now m =
      let shrunk = D.truncate (D.mul (D.of_nat m.current_chunk_size) m.decrease_factor) in
      record m {
        current_chunk_size =
            if ltb m.min_chunk_size m.current_chunk_size
            then max shrunk m.min_chunk_size
            else m.current_chunk_size;
        throughput_history = (0, now) ∷ [];
      }

  -- The new smoothed throughput, from a history that spans `span` milliseconds.
  smoothed : ℕ → List (ℕ × ℕ) → ChunkSizeManager → D.Value
  unfolding total
  smoothed span history m =
      let bytes = (total history + 2 ^ 64 - (front history).0) % 2 ^ 64 in
      let current = D.div (D.of_nat bytes) (D.div (D.of_nat span) (D.of_nat 1000)) in
      if D.is_zero m.smoothed_throughput
      then current
      else D.add (D.mul m.ema_alpha current)
          (D.mul (D.sub (D.of_nat 1) m.ema_alpha) m.smoothed_throughput)

  -- `std::clamp`
  abbrev clamp : ℕ → ℕ → ℕ → ℕ
  clamp n low high = min (max n low) high

  -- The branch of a transfer that succeeded.
  unfoldable pub after_success : ℕ → ℕ → ChunkSizeManager → ChunkSizeManager
  unfolding smoothed
  after_success now bytes_transferred m =
      let history = m.throughput_history ++ ((bytes_transferred, now) ∷ []) in
      let span = now - (front history).1 in
      let throughput = smoothed span history m in
      let ideal = D.truncate (D.mul throughput (decimal 5 100)) in
      let mixed = D.truncate (
        D.add (D.mul (decimal 7 10) (D.of_nat m.current_chunk_size))
          (D.mul (decimal 3 10) (D.of_nat ideal))) in
      if ltb span 50 then record m { throughput_history = history } else record m {
        smoothed_throughput = throughput;
        throughput_history = (0, now) ∷ [];
        current_chunk_size = clamp mixed m.min_chunk_size m.max_chunk_size;
      }

  -- `update_chunk_size`, which is `adjust_chunk_size_based_on_success` under the lock.
  unfoldable pub update_chunk_size : ℕ → Bool → ℕ → ChunkSizeManager → ChunkSizeManager
  update_chunk_size now success bytes_transferred m =
      if not success then after_failure now m else after_success now bytes_transferred m
