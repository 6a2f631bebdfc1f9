-- ===== src/Crypto/Sha3/Blocks.antt =====
-- The loop over full blocks: enough fuel, and bytes that come in two parts.
use net_copy.Common.{
  ℕ, zero, suc, ◌<◌, ◌≤◌, ◌≡◌, refl, sym, ap, ◌∙◌, List, [], ◌∷◌, ◌++◌, length, length-append,
  length-take, length-drop, take, drop, take-append_exact, drop-append_exact, take-append-drop,
  append_assoc, leb, leb→le, leb-false→lt, Bool-cases, inl, inr, arith,
}
use net_copy.Crypto.Sha3.{rate, absorb, absorb_blocks}

pub blocks_short : (f : ℕ) (s bs : List ℕ) → length bs < rate → absorb_blocks f s bs ≡ (s, bs)
unfolding absorb_blocks
blocks_short zero s bs h = refl
blocks_short (suc f) s bs h = elim (Bool-cases (leb 136 (length bs))) [
  | inl y ↦ absurd (omega (arith, leb→le 136 (length bs) y))
  | inr n ↦ rw n refl
]

pub blocks_long :
    (f : ℕ) (s bs : List ℕ)
    → rate ≤ length bs
    → absorb_blocks (suc f) s bs ≡ absorb_blocks f (absorb s (take rate bs)) (drop rate bs)
unfolding absorb_blocks
blocks_long f s bs h = elim (Bool-cases (leb 136 (length bs))) [
  | inl y ↦ rw y refl
  | inr n ↦ absurd (omega (arith, leb-false→lt 136 (length bs) n))
]

blocks_fuel :
    (f g : ℕ) (s bs : List ℕ)
    → length bs ≤ f
    → length bs ≤ g
    → absorb_blocks f s bs ≡ absorb_blocks g s bs
blocks_fuel zero g s bs hf hg =
    rw (blocks_short zero s bs (omega arith), blocks_short g s bs (omega arith)) refl
blocks_fuel (suc f) zero s bs hf hg =
    rw (blocks_short (suc f) s bs (omega arith), blocks_short zero s bs (omega arith)) refl
blocks_fuel (suc f) (suc g) s bs hf hg = elim (Bool-cases (leb 136 (length bs))) [
  | inl y ↦
      let long = leb→le 136 (length bs) y in
      rw (blocks_long f s bs long, blocks_long g s bs long)
        (blocks_fuel f g (absorb s (take 136 bs)) (drop 136 bs) (omega (arith, length-drop 136 bs))
          (omega (arith, length-drop 136 bs)))
  | inr n ↦
      let short = leb-false→lt 136 (length bs) n in
      rw (blocks_short (suc f) s bs short, blocks_short (suc g) s bs short) refl
]

-- The loop with the fuel the code gives it.
abbrev pub run : List ℕ → List ℕ → List ℕ × List ℕ
run s bs = absorb_blocks (length bs) s bs

run_long :
    (s bs : List ℕ) → rate ≤ length bs → run s bs ≡ run (absorb s (take rate bs)) (drop rate bs)
run_long s [] h = absurd (omega arith)
run_long s (b ∷ bs) h =
    blocks_long (length bs) s (b ∷ bs) h
    ∙ blocks_fuel (length bs) (length (drop 136 (b ∷ bs))) (absorb s (take 136 (b ∷ bs)))
        (drop 136 (b ∷ bs)) (omega (arith, length-drop 136 (b ∷ bs))) (omega arith)

-- A full first block.
pub run_block :
    (s block bs : List ℕ) → length block ≡ rate → run s (block ++ bs) ≡ run (absorb s block) bs
run_block s block bs h =
    run_long s (block ++ bs) (omega (arith, length-append block bs))
    ∙ rw (take-append_exact 136 block bs h, drop-append_exact 136 block bs h) refl

-- Fewer bytes than a block are left.
pub blocks_left : (f : ℕ) (s bs : List ℕ) → length bs ≤ f → length (absorb_blocks f s bs).1 < rate
blocks_left zero s bs h = rw (blocks_short zero s bs (omega arith)) (omega arith)
blocks_left (suc f) s bs h = elim (Bool-cases (leb 136 (length bs))) [
  | inl y ↦
      rw (blocks_long f s bs (leb→le 136 (length bs) y))
        (blocks_left f (absorb s (take 136 bs)) (drop 136 bs) (omega (arith, length-drop 136 bs)))
  | inr n ↦ let short = leb-false→lt 136 (length bs) n in rw (blocks_short (suc f) s bs short) short
]

-- What came before leaves a state and some bytes, which stand for all of it.
pub run-append :
    (f : ℕ) (s bs more : List ℕ)
    → length bs ≤ f
    → run s (bs ++ more) ≡ run (absorb_blocks f s bs).0 ((absorb_blocks f s bs).1 ++ more)
run-append zero s bs more h = rw (blocks_short zero s bs (omega arith)) refl
run-append (suc f) s bs more h = elim (Bool-cases (leb 136 (length bs))) [
  | inl y ↦
      let long = leb→le 136 (length bs) y in
      ap (λ l. run s (l ++ more)) (sym (take-append-drop 136 bs))
      ∙ ap (run s) (append_assoc (take 136 bs) (drop 136 bs) more)
      ∙ run_block s (take 136 bs) (drop 136 bs ++ more) (omega (arith, length-take 136 bs))
      ∙ run-append f (absorb s (take 136 bs)) (drop 136 bs) more (omega (arith, length-drop 136 bs))
      ∙ rw (blocks_long f s bs long) refl
  | inr n ↦ rw (blocks_short (suc f) s bs (leb-false→lt 136 (length bs) n)) refl
]
