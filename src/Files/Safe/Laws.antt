-- ===== src/Files/Safe/Laws.antt =====
-- What the check of a path guarantees.
use net_copy.Common.{
  ℕ, zero, suc, ◌-◌, ◌≡◌, ◌⊎◌, inl, inr, refl, sym, ap, ◌∙◌, List, [], ◌∷◌, ◌++◌, length, true,
  false, not, ltb, same_bytes, same_bytes→eq, same_bytes_self, Option, some, All, subst, Bool-cases,
  arith,
}
use net_copy.Files.Path.{Text, NormalPath, dot, dot_dot}
use net_copy.Files.Safe.{
  clean, same_flag, same_path, mismatch, downs, ups, dot_dots, or_dot, lexically_relative,
  stays_below,
}

-- A name that is neither `.` nor `..`.
abbrev pub IsName : Text → Type 0
IsName b = (same_bytes b dot ≡ false) × (same_bytes b dot_dot ≡ false)

downs-names : (bs : List Text) → All IsName bs → downs bs ≡ length bs
unfolding downs
downs-names [] h = refl
downs-names (b ∷ bs) ((n, m), hs) = rw (n, m) (ap suc (downs-names bs hs))

ups-names : (bs : List Text) → All IsName bs → ups bs ≡ 0
unfolding ups
ups-names [] h = refl
ups-names (b ∷ bs) ((n, m), hs) = rw m (ups-names bs hs)

mismatch-All : (as' bs : List Text) → All IsName bs → All IsName (mismatch as' bs).1
unfolding mismatch
mismatch-All [] bs h = h
mismatch-All (a ∷ as') [] h = tt
mismatch-All (a ∷ as') (b ∷ bs) (h, hs) = elim (Bool-cases (same_bytes a b)) [
  | inl y ↦ rw y (mismatch-All as' bs hs)
  | inr n ↦ rw n (h, hs)
]

-- If nothing is left of the base, the rest of the path is below it.
mismatch_below : (as' bs : List Text) → (mismatch as' bs).1 ≡ [] → as' ≡ bs ++ (mismatch as' bs).0
unfolding mismatch
mismatch_below [] bs h = sym (rw h refl)
mismatch_below (a ∷ as') [] h = refl
mismatch_below (a ∷ as') (b ∷ bs) h = elim (Bool-cases (same_bytes a b)) [
  | inl y ↦ rw y (cc (same_bytes→eq a b y, mismatch_below as' bs (rw y at h)))
  | inr n ↦ absurd (let e = rw n at h in cc)
]

below_mismatch : (bs rest : List Text) → mismatch (bs ++ rest) bs ≡ (rest, [])
unfolding mismatch
below_mismatch [] [] = refl
below_mismatch [] (r ∷ rs) = refl
below_mismatch (b ∷ bs) rest = rw (same_bytes_self b) (below_mismatch bs rest)

-- A path that consists of another and names below it.
pub record IsBelow (p base : NormalPath) : Type 0 where
  pub rest : List Text
  pub same_root : same_flag p.absolute base.absolute ≡ true
  pub extends : p.names ≡ base.names ++ rest

dots_below : (n : ℕ) (rest : List Text) → stays_below (or_dot (dot_dots n ++ rest)) ≡ true → n ≡ 0
unfolding dot_dots same_bytes
dots_below zero rest h = refl
dots_below (suc n) rest h = cc

length_zero : (bs : List Text) → length bs ≡ 0 → bs ≡ []
length_zero [] h = refl
length_zero (b ∷ bs) h = absurd (omega arith)

All-suffix : (bs rest : List Text) → All IsName (bs ++ rest) → All IsName rest
All-suffix [] rest h = h
All-suffix (b ∷ bs) rest (h, hs) = All-suffix bs rest hs

names_below : (rest : List Text) → All IsName rest → stays_below (or_dot rest) ≡ true
unfolding same_bytes
names_below [] h = refl
names_below (r ∷ rs) ((n, m), hs) = ap not m

ltb_zero : (n : ℕ) → ltb n 0 ≡ false
ltb_zero n = ground arith

minus_zero : (n : ℕ) → n - 0 ≡ n
minus_zero n = omega arith

other_root :
    (p base : NormalPath)
    → same_flag p.absolute base.absolute ≡ false
    → stays_below (lexically_relative p base) ≡ true
    → ⊥
unfolding lexically_relative
other_root p base other e = let f = rw other at e in cc

-- The relative path between two of the same root whose base has only names.
relative_names :
    (p base : NormalPath)
    → same_flag p.absolute base.absolute ≡ true
    → All IsName base.names
    → lexically_relative p base
      ≡ or_dot
          (dot_dots (length (mismatch p.names base.names).1) ++ (mismatch p.names base.names).0)
unfolding lexically_relative
relative_names p base root h =
    let left = mismatch-All p.names base.names h in
    let bs = (mismatch p.names base.names).1 in
    rw (root, downs-names bs left, ups-names bs left, ltb_zero (length bs), minus_zero (length bs))
      refl

pub below→IsBelow :
    (p base : NormalPath)
    → All IsName base.names
    → stays_below (lexically_relative p base) ≡ true
    → IsBelow p base
below→IsBelow p base h e = elim (Bool-cases (same_flag p.absolute base.absolute)) [
  | inl root ↦
      let m = mismatch p.names base.names in
      let none_left =
        length_zero m.1 (dots_below (length m.1) m.0 (rw (relative_names p base root h) at e)) in
      record { rest = m.0; same_root = root; extends = mismatch_below p.names base.names none_left }
  | inr other ↦ absurd (other_root p base other e)
]

pub IsBelow→below :
    (p base : NormalPath)
    → All IsName base.names
    → All IsName p.names
    → IsBelow p base
    → stays_below (lexically_relative p base) ≡ true
IsBelow→below p base h hp b =
    let m = ap (λ l. mismatch l base.names) b.extends ∙ below_mismatch base.names b.rest in
    let named = All-suffix base.names b.rest (subst (All IsName) b.extends hp) in
    rw (relative_names p base b.same_root h, m) (unfold dot_dots in names_below b.rest named)

module _ (weakly_canonical : NormalPath → Option NormalPath)
    (named : (p r : NormalPath) → weakly_canonical p ≡ some r → All IsName r.names) where
  -- A path that is, with the symbolic links resolved, the other or below it.
  pub record ResolvesBelow (p base : NormalPath) : Type 0 where
    pub path : NormalPath
    pub directory : NormalPath
    pub path_resolved : weakly_canonical p ≡ some path
    pub directory_resolved : weakly_canonical base ≡ some directory
    pub below : IsBelow path directory

  -- What the check of a path against a directory finds out.
  abbrev pub IsWithin : Text → Text → Type 0
  IsWithin path base =
      (same_path (clean path) (clean base) ≡ true) ⊎ ResolvesBelow (clean path) (clean base)
