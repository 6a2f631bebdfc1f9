-- ===== src/Transport/Socket/Laws.antt =====
-- What the loop receives.
use net_copy.Common.{
  NetCopyException, ◌∷◌, ltb-false→le, ℕ, zero, suc, ◌+◌, ◌-◌, ◌≤◌, ◌<◌, ◌≡◌, refl, sym, ap, ◌∙◌,
  List, [], ◌++◌, length, length-append, append_assoc, ltb, ltb→lt, Bool-cases, inl, inr, Result,
  ok, throw, String, arith,
}
use net_copy.Transport.Socket.{Socket, IsStream, receive_all}

module _ (S : Socket) (L : IsStream S) (closed : String) where
  -- The bytes that were asked for, and the socket behind them.
  pub record Gets (n : ℕ) (s : S.State) (r : Result (List ℕ × S.State)) : Type 0 where
    pub bytes : List ℕ
    pub after : S.State
    pub returned : r ≡ ok (bytes, after)
    pub count : length bytes ≡ n
    pub order : L.pending s ≡ bytes ++ L.pending after

  -- One round and what follows it.
  round_Gets :
      (fuel n b : ℕ) (bs : List ℕ) (s after : S.State)
      → S.receive (suc n) s ≡ ok (b ∷ bs, after)
      → Gets
          (suc n - length (b ∷ bs))
          after
          (receive_all S closed fuel (suc n - length (b ∷ bs)) after)
      → Gets (suc n) s (receive_all S closed (suc fuel) (suc n) s)
  unfolding receive_all
  round_Gets fuel n b bs s after e g = record {
    bytes = (b ∷ bs) ++ g.bytes;
    after = g.after;
    returned = rw (e, g.returned) refl;
    count =
        omega
          (arith, length-append (b ∷ bs) g.bytes, g.count, L.at_most (suc n) s (b ∷ bs) after e);
    order =
        L.in_order (suc n) s (b ∷ bs) after e
        ∙ ap (λ l. (b ∷ bs) ++ l) g.order
        ∙ sym (append_assoc (b ∷ bs) g.bytes (L.pending g.after));
  }

  -- What is pending behind a round.
  length-pending :
      (n : ℕ) (s : S.State) (bytes : List ℕ) (after : S.State)
      → S.receive n s ≡ ok (bytes, after)
      → length (L.pending s) ≡ length bytes + length (L.pending after)
  length-pending n s bytes after e =
      ap (λ l. length l) (L.in_order n s bytes after e) ∙ length-append bytes (L.pending after)

  -- If the peer sent enough, the loop returns the next `n` bytes.
  pub receive_all-Gets :
      (fuel n : ℕ) (s : S.State)
      → n ≤ fuel
      → n ≤ length (L.pending s)
      → Gets n s (receive_all S closed fuel n s)
  receive_all-Gets fuel zero s h enough =
      unfold receive_all in
      record { bytes = []; after = s; returned = refl; count = refl; order = refl }
  receive_all-Gets zero (suc n) s h enough = absurd (omega arith)
  receive_all-Gets (suc fuel) (suc n) s h enough =
      let (b, bs, after, e) = L.some_bytes (suc n) s (omega arith) (omega arith) in
      round_Gets fuel n b bs s after e (
        receive_all-Gets fuel (suc n - length (b ∷ bs)) after (omega arith) (
          omega (
            arith,
            length-pending (suc n) s (b ∷ bs) after e,
            L.at_most (suc n) s (b ∷ bs) after e,
          )))

  round_throws :
      (fuel n b : ℕ) (bs : List ℕ) (s after : S.State) (e : NetCopyException)
      → S.receive (suc n) s ≡ ok (b ∷ bs, after)
      → receive_all S closed fuel (suc n - length (b ∷ bs)) after ≡ throw e
      → receive_all S closed (suc fuel) (suc n) s ≡ throw e
  unfolding receive_all
  round_throws fuel n b bs s after e got h = rw (got, h) refl

  ended_throws :
      (fuel n : ℕ) (s : S.State) (e : NetCopyException)
      → S.receive (suc n) s ≡ throw e
      → receive_all S closed (suc fuel) (suc n) s ≡ throw e
  unfolding receive_all
  ended_throws fuel n s e h = rw h refl

  -- If the peer closed before, the loop throws.
  pub receive_all_throws :
      (fuel n : ℕ) (s : S.State)
      → n ≤ fuel
      → length (L.pending s) < n
      → (e : NetCopyException) × (receive_all S closed fuel n s ≡ throw e)
  receive_all_throws fuel zero s h short = absurd (omega arith)
  receive_all_throws zero (suc n) s h short = absurd (omega arith)
  receive_all_throws (suc fuel) (suc n) s h short =
      elim (Bool-cases (ltb 0 (length (L.pending s)))) [
        | inl y ↦
            let pos = ltb→lt 0 (length (L.pending s)) y in
            let (b, bs, after, got) = L.some_bytes (suc n) s (omega arith) pos in
            let (e, thrown) =
              receive_all_throws fuel (suc n - length (b ∷ bs)) after (omega arith)
                (omega (arith, length-pending (suc n) s (b ∷ bs) after got)) in
            (e, round_throws fuel n b bs s after e got thrown)
        | inr none_left ↦
            let none : length (L.pending s) ≡ 0 =
              omega (arith, ltb-false→le 0 (length (L.pending s)) none_left) in
            let (e, thrown) = L.ended (suc n) s (omega arith) none in
            (e, ended_throws fuel n s e thrown)
      ]
