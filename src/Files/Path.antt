-- ===== src/Files/Path.antt =====
-- Paths of a POSIX system: the text, `std::filesystem::path::lexically_normal`, and the conversions of
-- src/common/utils.cpp. A text is the list of its characters' codes.
use net_copy.Common.{
  ℕ, List, [], ◌∷◌, ◌++◌, Bool, true, false, not, ◌==◌, ◌&&◌, ◌||◌, same_bytes, if◌then◌else◌,
}

-- '/' and '\'
abbrev pub slash : ℕ
slash = 47

abbrev pub backslash : ℕ
backslash = 92

abbrev pub Text : Type 0
Text = List ℕ

-- `convert_to_native_path` and `convert_to_unix_path`
unfoldable pub convert_to_native_path : Text → Text
convert_to_native_path [] = []
convert_to_native_path (c ∷ cs) = (if c == backslash then slash else c) ∷ convert_to_native_path cs

unfoldable pub is_absolute_path : Text → Bool
is_absolute_path [] = false
is_absolute_path (c ∷ cs) = c == slash

-- A path in its elements. `trailing` says that a separator stands behind the last name.
pub record NormalPath : Type 0 where
  pub absolute : Bool
  pub names : List Text
  pub trailing : Bool

abbrev pub dot : Text
dot = 46 ∷ []

abbrev pub dot_dot : Text
dot_dot = 46 ∷ 46 ∷ []

-- The pieces between separators, from `cur` on.
split_path : Text → Text → List Text
split_path cur [] = cur ∷ []
split_path cur (c ∷ cs) =
    let ended = split_path [] cs in
    let longer = split_path (cur ++ (c ∷ [])) cs in if c == slash then cur ∷ ended else longer

abbrev is_empty : Text → Bool
is_empty [] = true
is_empty (c ∷ cs) = false

-- The names so far, the last first, and whether a separator is behind them.
pub record Walk : Type 0 where
  pub stack : List Text
  pub behind : Bool

-- `..` behind the names so far: it takes back a name, stays at the root, or is kept.
up : Bool → List Text → Walk
up true [] = record { stack = []; behind = true }
up false [] = record { stack = dot_dot ∷ []; behind = false }
up absolute (n ∷ ns) =
    if same_bytes n dot_dot
    then record { stack = dot_dot ∷ n ∷ ns; behind = false }
    else record { stack = ns; behind = true }

-- One piece.
unfoldable pub walk_step : Bool → Walk → Text → Walk
unfolding up
walk_step absolute w piece =
    if is_empty piece || same_bytes piece dot
    then record w { behind = true }
    else if same_bytes piece dot_dot
    then up absolute w.stack
    else record { stack = piece ∷ w.stack; behind = false }

unfoldable pub walk : Bool → Walk → List Text → Walk
walk absolute w [] = w
walk absolute w (piece ∷ pieces) = walk absolute (walk_step absolute w piece) pieces

abbrev reverse_onto : List Text → List Text → List Text
reverse_onto [] out = out
reverse_onto (n ∷ ns) out = reverse_onto ns (n ∷ out)

-- Nothing left of a relative path is `.`; no separator is kept behind a last `..`.
finish : Bool → Walk → NormalPath
finish true w = record { absolute = true; names = reverse_onto w.stack []; trailing = w.behind }
finish false w = elim w.stack [
  | [] ↦ record { absolute = false; names = dot ∷ []; trailing = false }
  | n ∷ ns ↦ record {
    absolute = false;
    names = reverse_onto w.stack [];
    trailing = w.behind && not (same_bytes n dot_dot);
  }
]

-- `lexically_normal`; the empty path stays empty.
unfoldable pub lexically_normal : Text → NormalPath
unfolding split_path finish
lexically_normal [] = record { absolute = false; names = []; trailing = false }
lexically_normal (c ∷ cs) =
    let absolute = c == slash in
    finish absolute (walk absolute (record { stack = []; behind = false }) (split_path [] (c ∷ cs)))

-- The text of a path in normal form.
joined : List Text → Bool → Text
joined [] trailing = []
joined (n ∷ []) trailing = n ++ (if trailing then slash ∷ [] else [])
joined (n ∷ m ∷ ms) trailing = n ++ (slash ∷ joined (m ∷ ms) trailing)

abbrev text_of : NormalPath → Text
text_of p = (if p.absolute then slash ∷ [] else []) ++ joined p.names p.trailing

-- `FileManager::normalize_path`
unfoldable pub normalize_path : Text → Text
unfolding joined
normalize_path text = text_of (lexically_normal text)
