-- ===== src/Throttle/ChunkSizeManager/Limits.antt =====
-- The chunk size stays within its limits.
use net_copy.Common.{
  ℕ, ◌-◌, ◌++◌, ◌≤◌, List, [], ◌∷◌, Bool, true, false, Bool-cases, inl, inr, ltb, min, arith,
}
use net_copy.Throttle.ChunkSizeManager.{
  front, Double, ChunkSizeManager, normalize_limits, init, set_adaptation_parameters, reset,
  set_limits, set_max_chunk_size, after_failure, after_success, update_chunk_size,
}

-- Limits that are in order, with the initial size and the current one between them.
pub record Within (initial low high current : ℕ) : Type 0 where
  pub floor : 1024 ≤ low
  pub ordered : low ≤ high
  pub initial_low : low ≤ initial
  pub initial_high : initial ≤ high
  pub current_low : low ≤ current
  pub current_high : current ≤ high

-- Another current size between the limits.
resized :
    {initial low high current : ℕ} (other : ℕ)
    → Within initial low high current
    → low ≤ other
    → other ≤ high
    → Within initial low high other
resized other w a b = record {
  floor = w.floor;
  ordered = w.ordered;
  initial_low = w.initial_low;
  initial_high = w.initial_high;
  current_low = a;
  current_high = b;
}

module _ (D : Double) where
  -- A factor that makes no number of bytes larger.
  abbrev pub Shrinks : D.Value → Type 0
  Shrinks f = (n : ℕ) → D.truncate (D.mul (D.of_nat n) f) ≤ n

  -- A call of the manager.
  pub data Call : Type 0 where
    limits_set : ℕ → ℕ → ℕ → Call
    max_set : ℕ → Call
    parameters_set : D.Value → D.Value → D.Value → Call
    was_reset : Call
    updated : ℕ → Bool → ℕ → Call

  unfoldable pub call : Call → ChunkSizeManager D → ChunkSizeManager D
  call (limits_set initial low high) m = set_limits D initial low high m
  call (max_set high) m = set_max_chunk_size D high m
  call (parameters_set increase decrease alpha) m =
      set_adaptation_parameters D increase decrease alpha m
  call was_reset m = reset D m
  call (updated now success bytes_transferred) m =
      update_chunk_size D now success bytes_transferred m

  unfoldable pub calls : List Call → ChunkSizeManager D → ChunkSizeManager D
  calls [] m = m
  calls (c ∷ cs) m = calls cs (call c m)

  -- The invariant: the sizes are within the limits, and a failure does not enlarge them.
  pub record IsSound (m : ChunkSizeManager D) : Type 0 where
    pub within : Within m.initial_chunk_size m.min_chunk_size m.max_chunk_size m.current_chunk_size
    pub shrinks : Shrinks m.decrease_factor

  -- `normalize_limits` puts any values into order.
  normalize_limits-IsSound :
      (m : ChunkSizeManager D) → Shrinks m.decrease_factor → IsSound (normalize_limits D m)
  unfolding normalize_limits
  normalize_limits-IsSound m h = record {
    within = record {
      floor = omega arith;
      ordered = omega arith;
      initial_low = omega arith;
      initial_high = omega arith;
      current_low = omega arith;
      current_high = omega arith;
    };
    shrinks = h;
  }

  reset-IsSound : (m : ChunkSizeManager D) → IsSound m → IsSound (reset D m)
  unfolding reset
  reset-IsSound m s =
      let w = s.within in
      record {
        within = resized m.initial_chunk_size w w.initial_low w.initial_high;
        shrinks = s.shrinks;
      }

  set_max_chunk_size-IsSound :
      (high : ℕ) (m : ChunkSizeManager D) → IsSound m → IsSound (set_max_chunk_size D high m)
  unfolding set_max_chunk_size
  set_max_chunk_size-IsSound high m s =
      let n = normalize_limits D (record m { max_chunk_size = high }) in
      let t = normalize_limits-IsSound (record m { max_chunk_size = high }) s.shrinks in
      let w = t.within in
      record {
        within =
            resized (min n.current_chunk_size n.max_chunk_size) w
              (omega (arith, w.current_low, w.current_high)) (omega arith);
        shrinks = t.shrinks;
      }

  after_failure-IsSound :
      (now : ℕ) (m : ChunkSizeManager D) → IsSound m → IsSound (after_failure D now m)
  unfolding after_failure
  after_failure-IsSound now m s =
      let w = s.within in
      elim (Bool-cases (ltb m.min_chunk_size m.current_chunk_size)) [
        | inl y ↦ rw y (record {
          within =
              resized _ w (omega arith)
                (omega (arith, w.current_high, w.ordered, s.shrinks m.current_chunk_size));
          shrinks = s.shrinks;
        })
        | inr n ↦ rw n (record { within = w; shrinks = s.shrinks })
      ]

  after_success-IsSound :
      (now bytes_transferred : ℕ) (m : ChunkSizeManager D)
      → IsSound m
      → IsSound (after_success D now bytes_transferred m)
  unfolding after_success
  after_success-IsSound now bytes_transferred m s =
      let w = s.within in
      elim (Bool-cases
        (ltb (now - (front D (m.throughput_history ++ ((bytes_transferred, now) ∷ []))).1) 50)) [
          | inl y ↦ rw y (record { within = w; shrinks = s.shrinks })
          | inr n ↦ rw n (record {
            within = resized _ w (omega (arith, w.ordered)) (omega arith);
            shrinks = s.shrinks;
          })
        ]

  update_chunk_size-IsSound :
      (now : ℕ) (success : Bool) (bytes_transferred : ℕ) (m : ChunkSizeManager D)
      → IsSound m
      → IsSound (update_chunk_size D now success bytes_transferred m)
  unfolding update_chunk_size
  update_chunk_size-IsSound now true bytes_transferred m s =
      after_success-IsSound now bytes_transferred m s
  update_chunk_size-IsSound now false bytes_transferred m s = after_failure-IsSound now m s

  -- The factor that `set_adaptation_parameters` chooses, whatever it is asked for.
  abbrev pub chosen_factor : D.Value → D.Value
  chosen_factor f =
      D.smaller (D.div (D.of_nat 99) (D.of_nat 100)) (D.larger (D.div (D.of_nat 1) (D.of_nat 10)) f)

  call-IsSound :
      (c : Call) (m : ChunkSizeManager D)
      → ((f : D.Value) → Shrinks (chosen_factor f))
      → IsSound m
      → IsSound (call c m)
  unfolding call set_limits set_adaptation_parameters
  call-IsSound (limits_set initial low high) m h s =
      reset-IsSound _ (normalize_limits-IsSound _ s.shrinks)
  call-IsSound (max_set high) m h s = set_max_chunk_size-IsSound high m s
  call-IsSound (parameters_set increase decrease alpha) m h s = record {
    within = s.within;
    shrinks = h decrease;
  }
  call-IsSound was_reset m h s = reset-IsSound m s
  call-IsSound (updated now success bytes_transferred) m h s =
      update_chunk_size-IsSound now success bytes_transferred m s

  calls-IsSound :
      (cs : List Call) (m : ChunkSizeManager D)
      → ((f : D.Value) → Shrinks (chosen_factor f))
      → IsSound m
      → IsSound (calls cs m)
  unfolding calls
  calls-IsSound [] m h s = s
  calls-IsSound (c ∷ cs) m h s = calls-IsSound cs (call c m) h (call-IsSound c m h s)

  -- A manager that was constructed with any sizes keeps its chunk size between its limits, and the
  -- lower limit at 1024 at least, whatever calls follow in whatever order, provided that the
  -- multiplication by the first factor, and by a factor of at most 0.99, makes no size larger.
  pub calls-Within :
      (initial low high : ℕ) (increase decrease alpha : D.Value) (cs : List Call)
      → Shrinks decrease
      → ((f : D.Value) → Shrinks (chosen_factor f))
      → let m = calls cs (init D initial low high increase decrease alpha) in
        Within m.initial_chunk_size m.min_chunk_size m.max_chunk_size m.current_chunk_size
  unfolding init
  calls-Within initial low high increase decrease alpha cs hd h =
      (calls-IsSound cs _ h (normalize_limits-IsSound _ hd)).within
