-- ===== src/Crypto/Sha3/Streaming.antt =====
-- A digest taken in pieces is the digest of the whole.
use net_copy.Common.{
  take-length, drop-length, ℕ, ◌+◌, ◌-◌, ◌<◌, ◌≤◌, ◌≡◌, refl, sym, ap, ◌∙◌, List, [], ◌∷◌, ◌++◌,
  length, length-append, length-take, take, drop, take-append-drop, append_assoc, append-nil, ltb,
  ltb-false→le, lt→ltb, ltb→lt, eq→eqb, ne→eqb, Bool-cases, inl, inr, arith, min,
}
use net_copy.Crypto.Sha3.{
  Sha3Hasher, rate, absorb, sha3_256, zero_state, new_hasher, fill, update, finalize,
}
use net_copy.Crypto.Sha3.Blocks.{run, run_block, run-append, blocks_short, blocks_left}

-- The hasher that has absorbed full blocks and keeps what is left.
abbrev pub of : List ℕ × List ℕ → Sha3Hasher
of p = record { state = p.0; buffer = p.1 }

min-left : (a b : ℕ) → a ≤ b → min a b ≡ a
min-left a b h = omega arith

min-right : (a b : ℕ) → b ≤ a → min a b ≡ b
min-right a b h = omega arith

full_length :
    (buffer bytes : List ℕ)
    → length buffer < rate
    → rate ≤ length buffer + length bytes
    → length (buffer ++ take (rate - length buffer) bytes) ≡ rate
full_length buffer bytes short h = omega (
  arith,
  length-append buffer (take (136 - length buffer) bytes),
  length-take (136 - length buffer) bytes,
)

-- `update` on an empty buffer.
update_empty : (s bytes : List ℕ) → update (of (s, [])) bytes ≡ of (run s bytes)
unfolding update fill
update_empty s bytes = refl

-- `fill` with bytes that do not fill the buffer.
fill_some :
    (s buffer bytes : List ℕ)
    → 0 < length buffer
    → length buffer + length bytes < rate
    → fill (of (s, buffer)) bytes ≡ (of (s, buffer ++ bytes), [])
unfolding fill
fill_some s buffer bytes pos h =
    rw
      (
        lt→ltb 0 (length buffer) pos,
        min-left (length bytes) (136 - length buffer) (omega arith),
        take-length bytes,
        drop-length bytes,
        ne→eqb (length (buffer ++ bytes)) 136 (λ e. omega (arith, length-append buffer bytes)),
      )
      refl

-- `fill` with bytes that fill the buffer.
fill_full :
    (s buffer bytes : List ℕ)
    → 0 < length buffer
    → length buffer < rate
    → rate ≤ length buffer + length bytes
    → let n = rate - length buffer in
      fill (of (s, buffer)) bytes ≡ (of (absorb s (buffer ++ take n bytes), []), drop n bytes)
unfolding fill
fill_full s buffer bytes pos short h =
    rw
      (
        lt→ltb 0 (length buffer) pos,
        min-right (length bytes) (136 - length buffer) (omega arith),
        eq→eqb (length (buffer ++ take (136 - length buffer) bytes)) 136
            (full_length buffer bytes short h),
      )
      refl

-- The rest of `update`.
abbrev after : Sha3Hasher × List ℕ → Sha3Hasher
after p = let more = run p.0.state p.1 in record { state = more.0; buffer = p.0.buffer ++ more.1 }

update-fill : (h : Sha3Hasher) (bytes : List ℕ) → update h bytes ≡ after (fill h bytes)
unfolding update
update-fill h bytes = refl

-- `update` goes on with the loop where it stopped.
update_lem :
    (s buffer bytes : List ℕ)
    → length buffer < rate
    → update (of (s, buffer)) bytes ≡ of (run s (buffer ++ bytes))
update_lem s [] bytes h = update_empty s bytes
update_lem s (b ∷ bs) bytes h =
    let buffer = b ∷ bs in
    let n = 136 - length buffer in
    elim (Bool-cases (ltb (length buffer + length bytes) 136)) [
      | inl y ↦
          let less = ltb→lt (length buffer + length bytes) 136 y in
          update-fill (of (s, buffer)) bytes
          ∙ ap after (fill_some s buffer bytes (omega arith) less)
          ∙ rw (blocks_short 0 s [] (omega arith), append-nil (buffer ++ bytes))
              (ap of (
                sym (
                  blocks_short (length (buffer ++ bytes)) s (buffer ++ bytes)
                    (omega (arith, length-append buffer bytes)))))
      | inr m ↦
          let enough = ltb-false→le (length buffer + length bytes) 136 m in
          update-fill (of (s, buffer)) bytes
          ∙ ap after (fill_full s buffer bytes (omega arith) h enough)
          ∙ ap of (
              sym (
                run_block s (buffer ++ take n bytes) (drop n bytes)
                  (full_length buffer bytes h enough)))
          ∙ ap (λ l. of (run s l))
              (append_assoc buffer (take n bytes) (drop n bytes)
                ∙ ap (λ l. buffer ++ l) (take-append-drop n bytes))
    ]

-- A row of updates.
abbrev pub update_all : Sha3Hasher → List (List ℕ) → Sha3Hasher
update_all h [] = h
update_all h (part ∷ parts) = update_all (update h part) parts

abbrev pub joined : List (List ℕ) → List ℕ
joined [] = []
joined (part ∷ parts) = part ++ joined parts

update_all_lem :
    (s buffer : List ℕ) (parts : List (List ℕ))
    → length buffer < rate
    → update_all (of (s, buffer)) parts ≡ of (run s (buffer ++ joined parts))
update_all_lem s buffer [] h =
    sym (rw (append-nil buffer, blocks_short (length buffer) s buffer h) refl)
update_all_lem s buffer (part ∷ parts) h =
    let before = run s (buffer ++ part) in
    rw (update_lem s buffer part h) (
      update_all_lem before.0 before.1 parts
        (blocks_left (length (buffer ++ part)) s (buffer ++ part) (omega arith))
      ∙ ap of (
          sym (run-append (length (buffer ++ part)) s (buffer ++ part) (joined parts) (omega arith))
          ∙ ap (run s) (append_assoc buffer part (joined parts))))

-- However the bytes are cut into pieces, a hasher that takes the pieces in order gives the digest
-- of all the bytes.
pub finalize-update_all :
    (parts : List (List ℕ)) → finalize (update_all new_hasher parts) ≡ sha3_256 (joined parts)
unfolding finalize sha3_256
finalize-update_all parts = rw (update_all_lem zero_state [] parts (omega arith)) refl
