-- ===== src/Auth/UserEntry/Paths.antt =====
-- Which paths a user may access, by their text.
use net_copy.Common.{
  AnyOf, here, there, and_true, or_true, or-right, take-length, ℕ, zero, suc, ◌<◌, ◌≡◌, ◌↔◌, ◌⊎◌,
  inl, inr, refl, sym, ap, ◌∙◌, List, [], ◌∷◌, ◌++◌, length, length-append, take, drop,
  take-append-drop, take-append_exact, get_or, Bool, true, false, ◌&&◌, ◌||◌, ◌==◌, leb, le→leb,
  leb→le, same_bytes, same_bytes_self, same_bytes→eq, Bool-cases, if◌then◌else◌, arith, eqb→eq,
  eq→eqb, eqb-false→ne,
}
use net_copy.Auth.UserEntry.{star, is_separator, grants, any_grants, UserEntry, can_access_path}

-- The text itself, or the text with a separator and anything behind it. This is of the text alone:
-- `/d/../etc` continues `/d`, and `/data/x` does not continue `/data/`.
abbrev pub Continues : List ℕ → List ℕ → Type 0
Continues allowed path =
    (path ≡ allowed)
    ⊎ ((c : ℕ) × (rest : List ℕ) × (path ≡ allowed ++ (c ∷ rest)) × ((c ≡ 47) ⊎ (c ≡ 92)))

-- An entry of `allowed_paths` grants a path: it is "*", or the path continues it.
abbrev pub Grants : List ℕ → List ℕ → Type 0
Grants allowed path = (allowed ≡ star) ⊎ Continues allowed path

is_separator_sound : (c : ℕ) → is_separator c ≡ true → (c ≡ 47) ⊎ (c ≡ 92)
is_separator_sound c h = elim (or_true (c == 47) (c == 92) h) [
  | inl y ↦ inl (eqb→eq c 47 y)
  | inr y ↦ inr (eqb→eq c 92 y)
]

is_separator_complete : (c : ℕ) → (c ≡ 47) ⊎ (c ≡ 92) → is_separator c ≡ true
is_separator_complete c (inl e) = rw e refl
is_separator_complete c (inr e) = rw e refl

-- What is behind a proper prefix.
behind :
    (n : ℕ) (path : List ℕ)
    → n < length path
    → (rest : List ℕ) × drop n path ≡ get_or path n 0 ∷ rest
behind zero [] h = absurd (omega arith)
behind zero (c ∷ cs) h = (cs, refl)
behind (suc n) [] h = absurd (omega arith)
behind (suc n) (c ∷ cs) h = behind n cs (omega arith)

get_or-append : (xs : List ℕ) (c : ℕ) (rest : List ℕ) → get_or (xs ++ (c ∷ rest)) (length xs) 0 ≡ c
get_or-append [] c rest = refl
get_or-append (x ∷ xs) c rest = get_or-append xs c rest

grants-star : (path : List ℕ) → grants star path ≡ true
grants-star path = rw (same_bytes_self star) refl

-- The test after the one for "*".
abbrev is_continued : List ℕ → List ℕ → Bool
is_continued allowed path =
    leb (length allowed) (length path)
    && (same_bytes (take (length allowed) path) allowed
        && (length path == length allowed || is_separator (get_or path (length allowed) 0)))

or_else : (b x : Bool) → x ≡ true → (if b then true else x) ≡ true
or_else true x h = refl
or_else false x h = h

is_continued_complete :
    (allowed path : List ℕ) → Continues allowed path → is_continued allowed path ≡ true
is_continued_complete allowed path (inl e) =
    rw
      (
        e,
        le→leb (length allowed) (length allowed) (omega arith),
        take-length allowed,
        same_bytes_self allowed,
        eq→eqb (length allowed) (length allowed) refl,
      )
      refl
is_continued_complete allowed path (inr (c, rest, e, sep)) =
    rw
      (
        e,
        le→leb (length allowed) (length (allowed ++ (c ∷ rest)))
            (omega (arith, length-append allowed (c ∷ rest))),
        take-append_exact (length allowed) allowed (c ∷ rest) refl,
        same_bytes_self allowed,
        get_or-append allowed c rest,
      )
      (or-right (length (allowed ++ (c ∷ rest)) == length allowed) (is_separator c)
        (is_separator_complete c sep))

is_continued_sound :
    (allowed path : List ℕ) → is_continued allowed path ≡ true → Continues allowed path
is_continued_sound allowed path h =
    let n = length allowed in
    let (fits, tests) =
      and_true (leb n (length path))
        (same_bytes (take n path) allowed && (length path == n || is_separator (get_or path n 0)))
        h in
    let (prefix, ends) =
      and_true (same_bytes (take n path) allowed)
        (length path == n || is_separator (get_or path n 0)) tests in
    let same = same_bytes→eq (take n path) allowed prefix in
    elim (Bool-cases (length path == n)) [
      | inl y ↦
          inl (sym (take-length path) ∙ ap (λ k. take k path) (eqb→eq (length path) n y) ∙ same)
      | inr m ↦
          let more = leb→le n (length path) fits in
          let (rest, e) = behind n path (omega (arith, eqb-false→ne (length path) n m)) in
          let sep = rw m at ends in
          inr (
            get_or path n 0,
            rest,
            sym (take-append-drop n path)
                ∙ ap (λ l. l ++ drop n path) same
                ∙ ap (λ l. allowed ++ l) e,
            is_separator_sound (get_or path n 0) sep,
          )
    ]

grants_complete : (allowed path : List ℕ) → Grants allowed path → grants allowed path ≡ true
grants_complete allowed path (inl e) = rw e (grants-star path)
grants_complete allowed path (inr below) =
    or_else (same_bytes allowed star) (is_continued allowed path)
      (is_continued_complete allowed path below)

grants_sound : (allowed path : List ℕ) → grants allowed path ≡ true → Grants allowed path
grants_sound allowed path h = elim (Bool-cases (same_bytes allowed star)) [
  | inl y ↦ inl (same_bytes→eq allowed star y)
  | inr n ↦ inr (is_continued_sound allowed path (rw n at h))
]

any_grants_sound :
    (paths : List (List ℕ)) (path : List ℕ)
    → any_grants paths path ≡ true
    → AnyOf (λ allowed. Grants allowed path) paths
unfolding any_grants
any_grants_sound [] path h = cc
any_grants_sound (allowed ∷ more) path h =
    elim (or_true (grants allowed path) (any_grants more path) h) [
      | inl y ↦ here (grants_sound allowed path y)
      | inr y ↦ there (any_grants_sound more path y)
    ]

any_grants_complete :
    (paths : List (List ℕ)) (path : List ℕ)
    → AnyOf (λ allowed. Grants allowed path) paths
    → any_grants paths path ≡ true
unfolding any_grants
any_grants_complete [] path any = elim any [ ]
any_grants_complete (allowed ∷ more) path (here g) = rw (grants_complete allowed path g) refl
any_grants_complete (allowed ∷ more) path (there g) =
    or-right (grants allowed path) (any_grants more path) (any_grants_complete more path g)

-- A user may access exactly the paths whose text is that of an allowed path, or begins with it and goes
-- on with `/` or a backslash, and every path if "*" is among them. So a longer name that only begins
-- like an allowed path is not accessible; `..` in a path is not resolved.
pub can_access_path_lem :
    (e : UserEntry) (path : List ℕ)
    → (can_access_path e path ≡ true) ↔ AnyOf (λ allowed. Grants allowed path) e.allowed_paths
can_access_path_lem e path =
    (any_grants_sound e.allowed_paths path, any_grants_complete e.allowed_paths path)
