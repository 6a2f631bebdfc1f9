-- ===== src/Files/Safe.antt =====
-- `FileManager::is_path_safe` of src/file/file_manager.cpp and `ConnectionHandler::is_path_allowed` of
-- src/server/server.cpp, on a POSIX system. `weakly_canonical`, which follows the symbolic links of
-- the disk, is a parameter.
pub mod Laws
use net_copy.Common.{
  ℕ, zero, suc, ◌+◌, ◌-◌, List, [], ◌∷◌, ◌++◌, length, Bool, true, false, not, ◌==◌, ◌&&◌, ◌||◌,
  ltb, leb, same_bytes, if◌then◌else◌, Option, none, some,
}
use net_copy.Files.Path.{
  Text, slash, backslash, NormalPath, dot, dot_dot, lexically_normal, normalize_path,
  convert_to_native_path,
}

-- Space, tabulator, line ends and the two quotes.
abbrev is_trimmed : ℕ → Bool
is_trimmed c = c == 32 || c == 9 || c == 13 || c == 10 || c == 34 || c == 39

trim_front : Text → Text
trim_front [] = []
trim_front (c ∷ cs) = let rest = trim_front cs in if is_trimmed c then rest else c ∷ cs

-- The text without what is trimmed at its end.
trim_back : Text → Text
trim_back [] = []
trim_back (c ∷ cs) = elim (trim_back cs) [
  | [] ↦ if is_trimmed c then [] else c ∷ []
  | d ∷ ds ↦ c ∷ d ∷ ds
]

-- `trim_spaces_and_quotes`
unfoldable pub trim_spaces_and_quotes : Text → Text
unfolding trim_front trim_back
trim_spaces_and_quotes s = trim_back (trim_front s)

is_separator : ℕ → Bool
is_separator c = c == slash || c == backslash

-- A drive with its separator, as `C:\`.
is_drive : Text → Bool
is_drive (c ∷ d ∷ e ∷ []) = d == 58
is_drive _ = false

-- The last character and what is before it.
last_of : ℕ → Text → ℕ
last_of c [] = c
last_of c (d ∷ ds) = last_of d ds

without_last : ℕ → Text → Text
without_last c [] = []
without_last c (d ∷ ds) = c ∷ without_last d ds

-- The loops that strip trailing separators. Each round takes a character, so a fuel of their number
-- is enough.
strip : ℕ → Text → Text
unfolding is_separator is_drive last_of without_last
strip zero s = s
strip (suc fuel) [] = []
strip (suc fuel) (c ∷ []) = c ∷ []
strip (suc fuel) (c ∷ d ∷ ds) =
    let shorter = strip fuel (without_last c (d ∷ ds)) in
    if is_separator (last_of c (d ∷ ds)) && not (is_drive (c ∷ d ∷ ds)) then shorter else c ∷ d ∷ ds

unfoldable pub clean : Text → NormalPath
unfolding strip
clean text =
    let trimmed = trim_spaces_and_quotes text in lexically_normal (strip (length trimmed) trimmed)

unfoldable pub same_names : List Text → List Text → Bool
same_names [] [] = true
same_names [] (b ∷ bs) = false
same_names (a ∷ as') [] = false
same_names (a ∷ as') (b ∷ bs) = same_bytes a b && same_names as' bs

abbrev same_flag : Bool → Bool → Bool
same_flag true b = b
same_flag false b = not b

-- `operator==` of paths
unfoldable pub same_path : NormalPath → NormalPath → Bool
same_path p q =
    same_flag p.absolute q.absolute
    && (same_flag p.trailing q.trailing && same_names p.names q.names)

-- `std::mismatch` on the elements: what is left of both.
unfoldable pub mismatch : List Text → List Text → List Text × List Text
mismatch [] bs = ([], bs)
mismatch (a ∷ as') [] = (a ∷ as', [])
mismatch (a ∷ as') (b ∷ bs) =
    let more = mismatch as' bs in if same_bytes a b then more else (a ∷ as', b ∷ bs)

-- How many names of what is left of the base lead down, and how many are `..`.
unfoldable pub downs : List Text → ℕ
downs [] = 0
downs (b ∷ bs) =
    let rest = downs bs in if same_bytes b dot || same_bytes b dot_dot then rest else suc rest

unfoldable pub ups : List Text → ℕ
ups [] = 0
ups (b ∷ bs) = let rest = ups bs in if same_bytes b dot_dot then suc rest else rest

dot_dots : ℕ → List Text
dot_dots zero = []
dot_dots (suc n) = dot_dot ∷ dot_dots n

abbrev or_dot : List Text → List Text
or_dot [] = dot ∷ []
or_dot (n ∷ ns) = n ∷ ns

-- `lexically_relative`: the elements of the relative path, none for the empty one.
unfoldable pub lexically_relative : NormalPath → NormalPath → List Text
unfolding dot_dots
lexically_relative p base =
    let rest = mismatch p.names base.names in
    if not (same_flag p.absolute base.absolute) || ltb (downs rest.1) (ups rest.1)
    then []
    else or_dot (dot_dots (downs rest.1 - ups rest.1) ++ rest.0)

-- The tests on the relative path.
abbrev stays_below : List Text → Bool
stays_below [] = false
stays_below (n ∷ ns) = not (same_bytes n dot_dot)

-- `std::filesystem::relative`; an error of the file system is caught.
abbrev relative_is_below : Option NormalPath → Option NormalPath → Bool
relative_is_below (some p) (some base) = stays_below (lexically_relative p base)
relative_is_below (some p) none = false
relative_is_below none base = false

module _ (weakly_canonical : NormalPath → Option NormalPath) where
  unfoldable pub is_path_safe : Text → Text → Bool
  is_path_safe path base_directory =
      let p = clean path in
      let base = clean base_directory in
      same_path p base || relative_is_below (weakly_canonical p) (weakly_canonical base)

  -- The loop of `is_path_allowed`.
  unfoldable pub any_safe : Text → List Text → Bool
  any_safe path [] = false
  any_safe path (allowed ∷ more) = is_path_safe path allowed || any_safe path more

  unfoldable pub is_path_allowed : List Text → Text → Bool
  is_path_allowed allowed_paths path =
      any_safe (normalize_path (convert_to_native_path path)) allowed_paths
