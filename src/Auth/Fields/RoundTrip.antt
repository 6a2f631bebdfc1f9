-- ===== src/Auth/Fields/RoundTrip.antt =====
-- The escaped form of a field, and how the line that `save` writes for a user is split.
use net_copy.Common.{
  ℕ, ◌≡◌, refl, sym, ap, ◌∙◌, List, [], ◌∷◌, ◌++◌, append_assoc, append-nil, false, ◌==◌,
  Bool-cases, inl, inr, eqb→eq, ne→eqb, ◌≢◌,
}
use net_copy.Auth.Fields.{
  semicolon, escape_field, unescape, unescape_field, split, split_semicolon_raw,
}

-- Whatever characters a field has, `unescape_field` gives it back from its escaped form.
pub unescape_field-escape_field : (s : List ℕ) → unescape_field (escape_field s) ≡ s
unfolding escape_field unescape
unescape_field-escape_field [] = refl
unescape_field-escape_field (c ∷ cs) = elim (Bool-cases (c == 92)) [
  | inl y ↦ rw y (cc (eqb→eq c 92 y, unescape_field-escape_field cs))
  | inr n ↦ elim (Bool-cases (c == 59)) [
    | inl y ↦ rw (n, y) (cc (eqb→eq c 59 y, unescape_field-escape_field cs))
    | inr m ↦ rw (n, m, n) (ap (◌∷◌ c) (unescape_field-escape_field cs))
  ]
]

-- An escaped field is passed over whole.
split-escape_field :
    (cur s rest : List ℕ)
    → split false cur (escape_field s ++ rest) ≡ split false (cur ++ escape_field s) rest
unfolding escape_field split
split-escape_field cur [] rest = ap (λ l. split false l rest) (sym (append-nil cur))
split-escape_field cur (c ∷ cs) rest = elim (Bool-cases (c == 92)) [
  | inl y ↦ rw y (
      split-escape_field (cur ++ (92 ∷ 92 ∷ [])) cs rest
      ∙ ap (λ l. split false l rest) (append_assoc cur (92 ∷ 92 ∷ []) (escape_field cs)))
  | inr n ↦ elim (Bool-cases (c == 59)) [
    | inl y ↦
        rw (n, y)
          (split-escape_field (cur ++ (92 ∷ 59 ∷ [])) cs rest
            ∙ ap (λ l. split false l rest) (append_assoc cur (92 ∷ 59 ∷ []) (escape_field cs)))
    | inr m ↦
        rw (n, m, n, m)
          (split-escape_field (cur ++ (c ∷ [])) cs rest
            ∙ ap (λ l. split false l rest) (append_assoc cur (c ∷ []) (escape_field cs)))
  ]
]

split_separator :
    (cur rest : List ℕ) → split false cur (semicolon ∷ rest) ≡ cur ∷ split false [] rest
unfolding split
split_separator cur rest = refl

split_end : (cur : List ℕ) → split false cur [] ≡ cur ∷ []
unfolding split
split_end cur = refl

-- The line of a user without its end, as `save` writes it: the name is escaped, the other fields are not.
abbrev behind_name : List (List ℕ) → List ℕ
behind_name [] = []
behind_name (field ∷ fields) = semicolon ∷ (field ++ behind_name fields)

abbrev pub saved_line : List ℕ → List (List ℕ) → List ℕ
saved_line name fields = escape_field name ++ behind_name fields

-- A field without `;` and without a backslash.
abbrev pub IsRaw : List ℕ → Type 0
IsRaw [] = Unit
IsRaw (c ∷ cs) = (c ≢ 59) × (c ≢ 92) × IsRaw cs

abbrev pub AreRaw : List (List ℕ) → Type 0
AreRaw [] = Unit
AreRaw (field ∷ fields) = IsRaw field × AreRaw fields

split_raw :
    (cur s rest : List ℕ) → IsRaw s → split false cur (s ++ rest) ≡ split false (cur ++ s) rest
unfolding split
split_raw cur [] rest raw = ap (λ l. split false l rest) (sym (append-nil cur))
split_raw cur (c ∷ cs) rest (n, m, raw) =
    rw (ne→eqb c 92 m, ne→eqb c 59 n)
      (split_raw (cur ++ (c ∷ [])) cs rest raw
        ∙ ap (λ l. split false l rest) (append_assoc cur (c ∷ []) cs))

split-behind_name :
    (cur : List ℕ) (fields : List (List ℕ))
    → AreRaw fields
    → split false cur (behind_name fields) ≡ cur ∷ fields
split-behind_name cur [] raw = split_end cur
split-behind_name cur (field ∷ fields) (raw, more) =
    split_separator cur (field ++ behind_name fields)
    ∙ ap (λ l. cur ∷ l)
        (split_raw [] field (behind_name fields) raw ∙ split-behind_name field fields more)

-- Splitting the line that is written for a user whose name has any characters and whose other fields
-- have neither `;` nor a backslash gives the escaped name, from which `unescape_field` gives back the
-- name, and the other fields.
pub split-saved_line :
    (name : List ℕ) (fields : List (List ℕ))
    → AreRaw fields
    → (split_semicolon_raw (saved_line name fields) ≡ escape_field name ∷ fields)
      × (unescape_field (escape_field name) ≡ name)
split-saved_line name fields raw = (
  split-escape_field [] name (behind_name fields)
      ∙ split-behind_name (escape_field name) fields raw,
  unescape_field-escape_field name,
)
