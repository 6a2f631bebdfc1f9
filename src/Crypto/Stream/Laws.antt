-- ===== src/Crypto/Stream/Laws.antt =====
-- The loop undoes itself, and enough fuel is enough.
use net_copy.Common.{
  ℕ, zero, suc, ◌+◌, ◌≤◌, ◌<◌, ◌≡◌, refl, ap, sym, ◌∙◌, List, [], ◌∷◌, ◌++◌, length, length-append,
  length-take, length-drop, take-append_exact, drop-append_exact, take-append-drop, take, drop, leb,
  arith, Bool-cases, inl, inr, leb→le, leb-false→lt, le→leb, lt→leb,
}
use net_copy.Common.Xor.{bit_xor_cancel}
use net_copy.Crypto.Stream.{xor_from, xor_blocks}

take-all {ℓ} : {A : Type ℓ} (n : ℕ) (xs : List A) → length xs ≤ n → take n xs ≡ xs
take-all zero [] h = refl
take-all zero (x ∷ xs) h = absurd (omega arith)
take-all (suc n) [] h = refl
take-all (suc n) (x ∷ xs) h = ap (◌∷◌ x) (take-all n xs (omega arith))

module _ {ℓ} {S : Type ℓ} (size : ℕ) (keystream : S → ℕ → ℕ) (next : S → S) (pos : 0 < size) where
  length-xor_from :
      (s : S) (i : ℕ) (bs : List ℕ) → length (xor_from size keystream next s i bs) ≡ length bs
  unfolding xor_from
  length-xor_from s i [] = refl
  length-xor_from s i (b ∷ bs) = ap suc (length-xor_from s (i + 1) bs)

  xor_from_twice :
      (s : S) (i : ℕ) (bs : List ℕ)
      → xor_from size keystream next s i (xor_from size keystream next s i bs) ≡ bs
  unfolding xor_from
  xor_from_twice s i [] = refl
  xor_from_twice s i (b ∷ bs) = cc (bit_xor_cancel b (keystream s i), xor_from_twice s (i + 1) bs)

  pub length-xor_blocks :
      (fuel : ℕ) (s : S) (bs : List ℕ)
      → length (xor_blocks size keystream next fuel s bs).0 ≡ length bs
  unfolding xor_blocks
  length-xor_blocks zero s bs = refl
  length-xor_blocks (suc fuel) s bs = elim (Bool-cases (leb (length bs) size)) [
    | inl y ↦ rw y (
        omega (
          arith,
          length-xor_from s 0 (take size bs),
          length-take size bs,
          leb→le (length bs) size y,
        ))
    | inr n ↦ rw n (
        omega (
          arith,
          length-append (xor_from size keystream next s 0 (take size bs))
              (xor_blocks size keystream next fuel (next s) (drop size bs)).0,
          length-xor_from s 0 (take size bs),
          length-xor_blocks fuel (next s) (drop size bs),
          length-take size bs,
          length-drop size bs,
          leb-false→lt (length bs) size n,
        ))
  ]

  -- The last round, and any other.
  last_round :
      (f : ℕ) (s : S) (bs : List ℕ)
      → length bs ≤ size
      → xor_blocks size keystream next (suc f) s bs ≡ (xor_from size keystream next s 0 bs, s)
  unfolding xor_blocks
  last_round f s bs h = rw (le→leb (length bs) size h, take-all size bs h)

  more_round :
      (f : ℕ) (s : S) (bs : List ℕ)
      → size < length bs
      → let more = xor_blocks size keystream next f (next s) (drop size bs) in
        xor_blocks size keystream next (suc f) s bs
        ≡ (xor_from size keystream next s 0 (take size bs) ++ more.0, more.1)
  unfolding xor_blocks
  more_round f s bs h = rw (lt→leb (length bs) size h)

  -- A round over a first block that has been through one round, and what follows it.
  more_round_twice :
      (f : ℕ) (s : S) (block rest : List ℕ)
      → length block ≡ size
      → 0 < length rest
      → let more = xor_blocks size keystream next f (next s) rest in
        xor_blocks size keystream next (suc f) s (xor_from size keystream next s 0 block ++ rest)
        ≡ (block ++ more.0, more.1)
  more_round_twice f s block rest hb hr =
      more_round f s (first ++ rest)
        (omega (arith, length-append first rest, length-xor_from s 0 block))
      ∙ rw (
        take-append_exact size first rest (length-xor_from s 0 block ∙ hb),
        drop-append_exact size first rest (length-xor_from s 0 block ∙ hb),
        xor_from_twice s 0 block,
      )
    where
      first : List ℕ
      first = xor_from size keystream next s 0 block

  -- The same state turns the output back into the input, and ends where the first pass ended.
  pub xor_blocks_twice :
      (fuel : ℕ) (s : S) (bs : List ℕ)
      → length bs ≤ fuel
      → xor_blocks size keystream next fuel s (xor_blocks size keystream next fuel s bs).0
        ≡ (bs, (xor_blocks size keystream next fuel s bs).1)
  xor_blocks_twice zero s bs h = unfold xor_blocks in refl
  xor_blocks_twice (suc fuel) s bs h = elim (Bool-cases (leb (length bs) size)) [
    | inl y ↦
        let short = leb→le (length bs) size y in
        rw (last_round fuel s bs short) (
          last_round fuel s (xor_from size keystream next s 0 bs)
            (omega (arith, length-xor_from s 0 bs))
          ∙ rw (xor_from_twice s 0 bs))
    | inr n ↦
        let long = leb-false→lt (length bs) size n in
        rw (more_round fuel s bs long) (
          more_round_twice fuel s (take size bs)
            (xor_blocks size keystream next fuel (next s) (drop size bs)).0
            (omega (arith, length-take size bs))
            (omega (arith, length-xor_blocks fuel (next s) (drop size bs), length-drop size bs))
          ∙ rw (
            xor_blocks_twice fuel (next s) (drop size bs) (omega (arith, length-drop size bs)),
            take-append-drop size bs,
          ))
  ]

  -- Any fuel of at least the number of bytes gives the same.
  pub xor_blocks_fuel :
      (f g : ℕ) (s : S) (bs : List ℕ)
      → length bs ≤ f
      → length bs ≤ g
      → xor_blocks size keystream next f s bs ≡ xor_blocks size keystream next g s bs
  xor_blocks_fuel zero zero s bs hf hg = refl
  xor_blocks_fuel zero (suc g) s [] hf hg =
      sym (unfold xor_from in unfold xor_blocks in last_round g s [] (omega arith))
  xor_blocks_fuel zero (suc g) s (b ∷ bs) hf hg = absurd (omega arith)
  xor_blocks_fuel (suc f) zero s [] hf hg =
      unfold xor_from in unfold xor_blocks in last_round f s [] (omega arith)
  xor_blocks_fuel (suc f) zero s (b ∷ bs) hf hg = absurd (omega arith)
  xor_blocks_fuel (suc f) (suc g) s bs hf hg = elim (Bool-cases (leb (length bs) size)) [
    | inl y ↦
        last_round f s bs (leb→le (length bs) size y)
        ∙ sym (last_round g s bs (leb→le (length bs) size y))
    | inr n ↦
        let long = leb-false→lt (length bs) size n in
        more_round f s bs long
        ∙ rw
            (xor_blocks_fuel f g (next s) (drop size bs) (omega (arith, length-drop size bs))
              (omega (arith, length-drop size bs)))
            (sym (more_round g s bs long))
  ]

  -- What a new key state keeps, the loop keeps.
  pub xor_blocks_keeps {ℓ'} :
      {B : Type ℓ'} (part : S → B)
      → ((s : S) → part (next s) ≡ part s)
      → (fuel : ℕ) (s : S) (bs : List ℕ)
      → part (xor_blocks size keystream next fuel s bs).1 ≡ part s
  xor_blocks_keeps part keeps zero s bs = unfold xor_blocks in refl
  xor_blocks_keeps part keeps (suc fuel) s bs = elim (Bool-cases (leb (length bs) size)) [
    | inl y ↦ ap (λ p. part p.1) (last_round fuel s bs (leb→le (length bs) size y))
    | inr n ↦
        ap (λ p. part p.1) (more_round fuel s bs (leb-false→lt (length bs) size n))
        ∙ xor_blocks_keeps part keeps fuel (next s) (drop size bs)
        ∙ keeps s
  ]
