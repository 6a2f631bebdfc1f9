-- ===== src/Auth/UserDb/Users.antt =====
-- The users of a database: their names stay different, and each change is seen by a later lookup
-- and by no other.
use net_copy.Common.{
  ℕ, ◌≡◌, refl, sym, ap, ◌∙◌, List, [], ◌∷◌, ◌++◌, Bool, true, false, some, none, same_bytes,
  same_bytes→eq, eq→same_bytes, if◌then◌else◌, Bool-cases, inl, inr,
}
use mathlib.Core.Option.{map}
use net_copy.Auth.UserEntry.{UserEntry}
use net_copy.Auth.UserDb.{find, is_found, change, erase}

-- No two users have one name.
abbrev pub AreDistinct : List UserEntry → Type 0
AreDistinct [] = Unit
AreDistinct (u ∷ us) = (find u.username us ≡ none) × AreDistinct us

if_same {ℓ} : {A : Type ℓ} (b : Bool) (a : A) → a ≡ (if b then a else a)
if_same true a = refl
if_same false a = refl

pub find-append :
    (name : List ℕ) (us : List UserEntry) (entry : UserEntry)
    → find name (us ++ (entry ∷ [])) ≡ (
        if is_found (find name us)
        then find name us
        else if same_bytes entry.username name
        then some entry
        else none)
unfolding find
find-append name [] entry = refl
find-append name (u ∷ us) entry = elim (Bool-cases (same_bytes u.username name)) [
  | inl y ↦ rw y refl
  | inr n ↦ rw n (find-append name us entry)
]

-- Of two names that differ only one is a third.
other_name :
    (a b c : List ℕ) → same_bytes a b ≡ false → same_bytes a c ≡ true → same_bytes b c ≡ false
other_name a b c n y = elim (Bool-cases (same_bytes b c)) [
  | inl z ↦
      let e = same_bytes→eq a c y ∙ sym (same_bytes→eq b c z) in
      absurd (let t = eq→same_bytes a b e in cc)
  | inr m ↦ m
]

-- A change that keeps the name is seen at this name, and at no other.
pub find-change :
    (f : UserEntry → UserEntry) (name other : List ℕ) (us : List UserEntry)
    → ((u : UserEntry) → (f u).username ≡ u.username)
    → find other (change f name us)
      ≡ (if same_bytes name other then map f (find other us) else find other us)
unfolding find change
find-change f name other [] keeps = if_same (same_bytes name other) none
find-change f name other (u ∷ us) keeps = elim (Bool-cases (same_bytes u.username name)) [
  | inl y ↦
      let e = same_bytes→eq u.username name y in
      elim (Bool-cases (same_bytes u.username other)) [
        | inl z ↦
            rw
              (
                y,
                ap (λ k. same_bytes k other) (keeps u),
                z,
                ap (λ k. same_bytes k other) (sym e) ∙ z,
              )
              refl
        | inr m ↦
            rw
              (
                y,
                ap (λ k. same_bytes k other) (keeps u),
                m,
                ap (λ k. same_bytes k other) (sym e) ∙ m,
              )
              refl
      ]
  | inr n ↦ elim (Bool-cases (same_bytes u.username other)) [
    | inl z ↦ rw (n, z, other_name u.username name other n z) refl
    | inr m ↦ rw (n, m) (find-change f name other us keeps)
  ]
]

pub find-erase :
    (name other : List ℕ) (us : List UserEntry)
    → AreDistinct us
    → find other (erase name us) ≡ (if same_bytes name other then none else find other us)
unfolding find erase
find-erase name other [] d = if_same (same_bytes name other) none
find-erase name other (u ∷ us) (d, ds) = elim (Bool-cases (same_bytes u.username name)) [
  | inl y ↦
      let e = same_bytes→eq u.username name y in
      elim (Bool-cases (same_bytes u.username other)) [
        | inl z ↦
            rw (y, z, ap (λ k. same_bytes k other) (sym e) ∙ z)
              (ap (λ k. find k us) (sym (same_bytes→eq u.username other z)) ∙ d)
        | inr m ↦ rw (y, m, ap (λ k. same_bytes k other) (sym e) ∙ m) refl
      ]
  | inr n ↦ elim (Bool-cases (same_bytes u.username other)) [
    | inl z ↦ rw (n, z, other_name u.username name other n z) refl
    | inr m ↦ rw (n, m) (find-erase name other us ds)
  ]
]

-- Names stay different.
pub change-AreDistinct :
    (f : UserEntry → UserEntry) (name : List ℕ) (us : List UserEntry)
    → ((u : UserEntry) → (f u).username ≡ u.username)
    → AreDistinct us
    → AreDistinct (change f name us)
unfolding change
change-AreDistinct f name [] keeps d = tt
change-AreDistinct f name (u ∷ us) keeps (d, ds) = elim (Bool-cases (same_bytes u.username name)) [
  | inl y ↦ rw y (ap (λ k. find k us) (keeps u) ∙ d, ds)
  | inr n ↦ rw n (
    find-change f name u.username us keeps
        ∙ ap (λ o. if same_bytes name u.username then map f o else o) d
        ∙ sym (if_same (same_bytes name u.username) none),
    change-AreDistinct f name us keeps ds,
  )
]

pub erase-AreDistinct :
    (name : List ℕ) (us : List UserEntry) → AreDistinct us → AreDistinct (erase name us)
unfolding erase
erase-AreDistinct name [] d = tt
erase-AreDistinct name (u ∷ us) (d, ds) = elim (Bool-cases (same_bytes u.username name)) [
  | inl y ↦ rw y ds
  | inr n ↦ rw n (
    find-erase name u.username us ds
        ∙ ap (λ o. if same_bytes name u.username then none else o) d
        ∙ sym (if_same (same_bytes name u.username) none),
    erase-AreDistinct name us ds,
  )
]

differ_sym : (a b : List ℕ) → same_bytes a b ≡ false → same_bytes b a ≡ false
differ_sym a b h = elim (Bool-cases (same_bytes b a)) [
  | inl y ↦ absurd (let t = eq→same_bytes a b (sym (same_bytes→eq b a y)) in cc)
  | inr n ↦ n
]

pub append-AreDistinct :
    (us : List UserEntry) (entry : UserEntry)
    → AreDistinct us
    → is_found (find entry.username us) ≡ false
    → AreDistinct (us ++ (entry ∷ []))
unfolding find
append-AreDistinct [] entry d h = (refl, tt)
append-AreDistinct (u ∷ us) entry (d, ds) h =
    elim (Bool-cases (same_bytes u.username entry.username)) [
      | inl y ↦ absurd (let found = rw y at h in cc)
      | inr n ↦ (
        find-append u.username us entry
            ∙ ap
                (λ o.
                  if is_found o
                  then o
                  else if same_bytes entry.username u.username
                  then some entry
                  else none)
                d
            ∙ rw (differ_sym u.username entry.username n) refl,
        append-AreDistinct us entry ds (rw n at h),
      )
    ]
