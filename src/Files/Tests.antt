-- ===== src/Files/Tests.antt =====
-- Checks of the path functions on texts, and runs of the theorems.
use net_copy.Common.{
  ◌≡◌, refl, List, [], ◌∷◌, Bool, true, false, not, ◌&&◌, same_bytes, if◌then◌else◌, Option, none,
  some,
}
use net_copy.Files.Path.{
  Text, NormalPath, dot, dot_dot, normalize_path, convert_to_native_path, lexically_normal, walk,
  walk_step,
}
use net_copy.Files.Safe.{
  is_path_allowed, any_safe, is_path_safe, clean, trim_spaces_and_quotes, same_path, same_names,
  lexically_relative, mismatch, ups, downs,
}

-- `/srv/data`, `/srv/data/../data/a` and `/srv/data/../etc`
abbrev srv_data : Text
srv_data = 47 ∷ 115 ∷ 114 ∷ 118 ∷ 47 ∷ 100 ∷ 97 ∷ 116 ∷ 97 ∷ []

abbrev inside : Text
inside =
    47 ∷ 115 ∷ 114 ∷ 118 ∷ 47 ∷ 100 ∷ 97 ∷ 116 ∷ 97 ∷ 47 ∷ 46 ∷ 46 ∷ 47 ∷ 100 ∷ 97 ∷ 116 ∷ 97 ∷ 47
    ∷ 97 ∷ []

abbrev outside : Text
outside = 47 ∷ 115 ∷ 114 ∷ 118 ∷ 47 ∷ 100 ∷ 97 ∷ 116 ∷ 97 ∷ 47 ∷ 46 ∷ 46 ∷ 47 ∷ 101 ∷ 116 ∷ 99 ∷ []

-- A disk without symbolic links.
abbrev is_name : Text → Bool
is_name n = not (same_bytes n dot) && not (same_bytes n dot_dot)

abbrev all_names : List Text → Bool
all_names [] = true
all_names (n ∷ ns) = is_name n && all_names ns

abbrev no_links : NormalPath → Option NormalPath
no_links p = if all_names p.names then some p else none

is_path_allowed-inside : is_path_allowed no_links (srv_data ∷ []) inside ≡ true
unfolding is_path_allowed any_safe is_path_safe clean trim_spaces_and_quotes same_path same_names
    lexically_relative mismatch ups downs normalize_path convert_to_native_path lexically_normal
    walk walk_step same_bytes
is_path_allowed-inside = refl

is_path_allowed-outside : is_path_allowed no_links (srv_data ∷ []) outside ≡ false
unfolding is_path_allowed any_safe is_path_safe clean trim_spaces_and_quotes same_path same_names
    lexically_relative mismatch ups downs normalize_path convert_to_native_path lexically_normal
    walk walk_step same_bytes
is_path_allowed-outside = refl
