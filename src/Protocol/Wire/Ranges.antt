-- ===== src/Protocol/Wire/Ranges.antt =====
-- What the readers return: numbers in the range of their type, and bytes of the buffer.
use net_copy.Common.{
  ℕ, zero, suc, ◌+◌, ◌*◌, ◌^◌, ◌≤◌, ◌<◌, bit_or, ◌≡◌, List, [], ◌∷◌, Bool, ok, length, length-take,
  length-drop, All-take, All-drop, take, drop, All, arith, String, ltb, Bool-cases, ltb-false→le,
  inl, inr, ok-injective, subst, Result,
}
use native.Mathlib.Numerals.{towards_suc}
use net_copy.Common.Bits.{bit_or_shifted}
use net_copy.Protocol.Reader.{Reader, Yields, >>=-Yields}
use net_copy.Common.{IsByte}
use net_copy.Protocol.Wire.{
  IsU8, IsU32, IsU64, IsSized, uint8_or, bool_or, read_uint8, read_bool, read_uint32, read_uint64,
  read_uint64_loop, read_counted, read_bytes, read_string,
}

-- `Yields` at one buffer.
abbrev Gives {ℓ κ} : {A : Type ℓ} → (A → Type κ) → Reader A → List ℕ → Type (ℓ ⊔ κ)
Gives {A = A} P m bs =
    (a : A) (rest : List ℕ)
    → All IsByte bs
    → m bs ≡ ok (a, rest)
    → P a × All IsByte rest × (length rest ≤ length bs)

-- A reader that returned a known pair.
returned {ℓ κ} :
    {A : Type ℓ} (P : A → Type κ) (bs : List ℕ) (a b : A) (mid rest : List ℕ)
    → ◌≡◌ {A = Result (A × List ℕ)} (ok (a, mid)) (ok (b, rest))
    → P a
    → All IsByte mid
    → length mid ≤ length bs
    → P b × All IsByte rest × (length rest ≤ length bs)
returned P bs a b mid rest e p h le =
    subst (λ t. P t.0 × All IsByte t.1 × (length t.1 ≤ length bs)) (ok-injective e) (p, h, le)

pub uint8-Yields : (message : String) → Yields IsU8 (read_uint8 message)
unfolding read_uint8
uint8-Yields message = record { apply = go }
  where
    go : (bs : List ℕ) → Gives IsU8 (read_uint8 message) bs
    go [] a rest h e = cc
    go (b ∷ bs) a rest h e = returned IsU8 (b ∷ bs) b a bs rest e h.0 h.1 (omega arith)

pub uint8_or-Yields : (d : ℕ) → IsU8 d → Yields IsU8 (uint8_or d)
unfolding uint8_or
uint8_or-Yields d hd = record { apply = go }
  where
    go : (bs : List ℕ) → Gives IsU8 (uint8_or d) bs
    go [] a rest h e = returned IsU8 [] d a [] rest e hd tt (omega arith)
    go (b ∷ bs) a rest h e = returned IsU8 (b ∷ bs) b a bs rest e h.0 h.1 (omega arith)

-- Any value will do.
abbrev pub Anything {ℓ} : {A : Type ℓ} → A → Type 0
Anything a = Unit {0}

pub bool-Yields : (message : String) → Yields (Anything {A = Bool}) (read_bool message)
unfolding read_bool
bool-Yields message = record { apply = go }
  where
    go : (bs : List ℕ) → Gives Anything (read_bool message) bs
    go [] a rest h e = cc
    go (b ∷ bs) a rest h e = returned Anything (b ∷ bs) _ a bs rest e tt h.1 (omega arith)

pub bool_or-Yields : (d : Bool) → Yields (Anything {A = Bool}) (bool_or d)
unfolding bool_or
bool_or-Yields d = record { apply = go }
  where
    go : (bs : List ℕ) → Gives Anything (bool_or d) bs
    go [] a rest h e = returned Anything [] d a [] rest e tt tt (omega arith)
    go (b ∷ bs) a rest h e = returned Anything (b ∷ bs) _ a bs rest e tt h.1 (omega arith)

-- One more byte above bit `k` widens the range by eight bits.
or_byte-lt : (k a b : ℕ) → a < 2 ^ k → IsByte b → bit_or a (b * 2 ^ k) < 2 ^ k * 256
or_byte-lt k a b ha hb = rw (bit_or_shifted k a b ha) (grind arith)

pub uint32-Yields : Yields IsU32 read_uint32
unfolding read_uint32
uint32-Yields = record { apply = go }
  where
    go : (bs : List ℕ) → Gives IsU32 (read_uint32) bs
    go (b₀ ∷ b₁ ∷ b₂ ∷ b₃ ∷ bs) a rest h e =
        returned IsU32 (b₀ ∷ b₁ ∷ b₂ ∷ b₃ ∷ bs) _ a bs rest e
          (or_byte-lt 24 _ b₃ (or_byte-lt 16 _ b₂ (or_byte-lt 8 b₀ b₁ h.0 h.1.0) h.1.1.0) h.1.1.1.0)
          h.1.1.1.1 (omega arith)
    go [] a rest h e = cc
    go (b₀ ∷ []) a rest h e = cc
    go (b₀ ∷ b₁ ∷ []) a rest h e = cc
    go (b₀ ∷ b₁ ∷ b₂ ∷ []) a rest h e = cc

byte_pow : (i n : ℕ) → 2 ^ ((i + suc n) * 8) ≡ 2 ^ ((i + 1 + n) * 8)
byte_pow i n = let e : (i + suc n) * 8 ≡ (i + 1 + n) * 8 = omega arith in rw e

next_pow : (i : ℕ) → 2 ^ ((i + 1) * 8) ≡ 2 ^ (i * 8) * 256
next_pow i = let e : (i + 1) * 8 ≡ i * 8 + 8 = omega arith in rw e (simp towards_suc (omega arith))

-- The loop keeps the number within the bytes that it has read.
loop-lt :
    (n i value : ℕ) (bs : List ℕ)
    → n ≤ length bs
    → value < 2 ^ (i * 8)
    → All IsByte bs
    → read_uint64_loop n i value bs < 2 ^ ((i + n) * 8)
unfolding read_uint64_loop
loop-lt zero i value bs le hv h = let e : i * 8 ≡ (i + 0) * 8 = omega arith in rw (← e) hv
loop-lt (suc n) i value [] le hv h = absurd (omega arith)
loop-lt (suc n) i value (b ∷ bs) le hv h =
    rw (byte_pow i n) (
      loop-lt n (i + 1) _ bs (omega arith) (rw (next_pow i) (or_byte-lt (i * 8) value b hv h.0))
        h.1)

pub uint64-Yields : Yields IsU64 read_uint64
unfolding read_uint64
uint64-Yields = record { apply = go }
  where
    go : (bs : List ℕ) → Gives IsU64 read_uint64 bs
    go bs a rest h e = elim (Bool-cases (ltb (length bs) 8)) [
      | inl t ↦ absurd (cc (rw t at e))
      | inr t ↦
          returned IsU64 bs _ a (drop 8 bs) rest (rw t at e)
            (loop-lt 8 0 0 bs (omega (arith, ltb-false→le _ _ t)) (omega arith) h)
            (All-drop IsByte 8 bs h) (omega (arith, length-drop 8 bs))
    ]

pub counted-Yields : (message : String) (n : ℕ) → IsU32 n → Yields IsSized (read_counted message n)
unfolding read_counted
counted-Yields message n hn = record { apply = go }
  where
    go :
        (bs : List ℕ) (a rest : List ℕ)
        → All IsByte bs
        → read_counted message n bs ≡ ok (a, rest)
        → IsSized a × All IsByte rest × (length rest ≤ length bs)
    go bs a rest h e = elim (Bool-cases (ltb (length bs) n)) [
      | inl t ↦ absurd (cc (rw t at e))
      | inr t ↦
          returned IsSized bs (take n bs) a (drop n bs) rest (rw t at e)
            (All-take IsByte n bs h, omega (arith, length-take n bs)) (All-drop IsByte n bs h)
            (omega (arith, length-drop n bs))
    ]

pub bytes-Yields : Yields IsSized read_bytes
unfolding read_bytes
bytes-Yields = >>=-Yields IsU32 IsSized _ _ uint32-Yields (counted-Yields _)

pub string-Yields : Yields IsSized read_string
unfolding read_string
string-Yields = >>=-Yields IsU32 IsSized _ _ uint32-Yields (counted-Yields _)
