-- ===== src/Auth/Fields.antt =====
-- The fields of a line of the user file: `escape_field`, `unescape_field` and `split_semicolon_raw`
-- of src/auth/user_db.cpp. A string is the list of its characters' codes.
pub mod RoundTrip
use net_copy.Common.{ℕ, List, [], ◌∷◌, ◌++◌, Bool, true, false, ◌==◌, if◌then◌else◌}

abbrev pub backslash : ℕ
backslash = 92

abbrev pub semicolon : ℕ
semicolon = 59

unfoldable pub escape_field : List ℕ → List ℕ
escape_field [] = []
escape_field (c ∷ cs) =
    let rest = escape_field cs in
    if c == backslash
    then backslash ∷ backslash ∷ rest
    else if c == semicolon
    then backslash ∷ semicolon ∷ rest
    else c ∷ rest

-- The loop of `unescape_field`, with its flag `esc`.
unfoldable pub unescape : Bool → List ℕ → List ℕ
unescape esc [] = []
unescape true (c ∷ cs) = c ∷ unescape false cs
unescape false (c ∷ cs) =
    let escaped = unescape true cs in
    let plain = unescape false cs in if c == backslash then escaped else c ∷ plain

abbrev pub unescape_field : List ℕ → List ℕ
unescape_field s = unescape false s

-- The loop of `split_semicolon_raw`, with `cur` and `esc`. The last field may be empty.
unfoldable pub split : Bool → List ℕ → List ℕ → List (List ℕ)
split esc cur [] = cur ∷ []
split true cur (c ∷ cs) = split false (cur ++ (backslash ∷ c ∷ [])) cs
split false cur (c ∷ cs) =
    let escaped = split true cur cs in
    let ended = split false [] cs in
    let longer = split false (cur ++ (c ∷ [])) cs in
    if c == backslash then escaped else if c == semicolon then cur ∷ ended else longer

abbrev pub split_semicolon_raw : List ℕ → List (List ℕ)
split_semicolon_raw line = split false [] line
