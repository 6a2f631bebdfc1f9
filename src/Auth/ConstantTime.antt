-- ===== src/Auth/ConstantTime.antt =====
-- The comparison without an early exit that src/auth/auth_engine.cpp (`verify_response`) and
-- src/auth/user_db.cpp (`verify_password`) share.
use net_copy.Common.{
  ℕ, ◌≡◌, ◌↔◌, refl, List, [], ◌∷◌, length, bit_or, bit_xor, Bool, true, false, ◌==◌, not,
  if◌then◌else◌, arith, eqb→eq, eq→eqb,
}
use net_copy.Common.Xor.{eq_of_bit_xor, bit_xor_self, bit_or-eq_zero}

-- `diff |= a[i] ^ b[i]` over both rows.
unfoldable pub diff_of : ℕ → List ℕ → List ℕ → ℕ
diff_of diff [] ys = diff
diff_of diff (x ∷ xs) [] = diff
diff_of diff (x ∷ xs) (y ∷ ys) = diff_of (bit_or diff (bit_xor x y)) xs ys

unfoldable pub constant_time_equal : List ℕ → List ℕ → Bool
constant_time_equal xs ys = if not (length xs == length ys) then false else diff_of 0 xs ys == 0

diff_of_self : (xs : List ℕ) → diff_of 0 xs xs ≡ 0
unfolding diff_of
diff_of_self [] = refl
diff_of_self (x ∷ xs) = rw (bit_xor_self x) (diff_of_self xs)

-- A difference stays.
diff_of-zero : (diff : ℕ) (xs ys : List ℕ) → diff_of diff xs ys ≡ 0 → diff ≡ 0
unfolding diff_of
diff_of-zero diff [] ys h = h
diff_of-zero diff (x ∷ xs) [] h = h
diff_of-zero diff (x ∷ xs) (y ∷ ys) h =
    (bit_or-eq_zero diff (bit_xor x y) (diff_of-zero (bit_or diff (bit_xor x y)) xs ys h)).0

diff_of-eq : (diff : ℕ) (xs ys : List ℕ) → length xs ≡ length ys → diff_of diff xs ys ≡ 0 → xs ≡ ys
unfolding diff_of
diff_of-eq diff [] [] e h = refl
diff_of-eq diff [] (y ∷ ys) e h = absurd (omega arith)
diff_of-eq diff (x ∷ xs) [] e h = absurd (omega arith)
diff_of-eq diff (x ∷ xs) (y ∷ ys) e h =
    let next = bit_or diff (bit_xor x y) in
    let same = (bit_or-eq_zero diff (bit_xor x y) (diff_of-zero next xs ys h)).1 in
    cc (eq_of_bit_xor x y same, diff_of-eq next xs ys (omega arith) h)

pub constant_time_equal_sound : (xs ys : List ℕ) → constant_time_equal xs ys ≡ true → xs ≡ ys
unfolding constant_time_equal
constant_time_equal_sound xs ys h =
    let (sizes, zero_diff) = both (length xs == length ys) (diff_of 0 xs ys == 0) h in
    diff_of-eq 0 xs ys (eqb→eq (length xs) (length ys) sizes) (eqb→eq (diff_of 0 xs ys) 0 zero_diff)
  where
    both : (a b : Bool) → (if not a then false else b) ≡ true → (a ≡ true) × (b ≡ true)
    both true b h = (refl, h)
    both false b h = cc

pub constant_time_equal_self : (xs : List ℕ) → constant_time_equal xs xs ≡ true
unfolding constant_time_equal
constant_time_equal_self xs = rw (eq→eqb (length xs) (length xs) refl, diff_of_self xs) refl

-- The comparison holds exactly of equal rows: no difference is lost, wherever it is.
pub constant_time_equal_lem : (xs ys : List ℕ) → (constant_time_equal xs ys ≡ true) ↔ (xs ≡ ys)
constant_time_equal_lem xs ys =
    (constant_time_equal_sound xs ys, λ e. rw (← e) (constant_time_equal_self xs))
