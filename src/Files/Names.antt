-- ===== src/Files/Names.antt =====
-- `get_filename`, `get_directory` and `join_path` of src/file/file_manager.cpp, on a POSIX system.
use net_copy.Common.{ℕ, [], ◌∷◌, ◌++◌, Bool, false, ◌==◌, if◌then◌else◌}
use net_copy.Files.Path.{Text, slash}

-- `path::filename`: what is behind the last separator.
unfoldable pub filename : Text → Text → Text
filename behind [] = behind
filename behind (c ∷ cs) = filename (if c == slash then [] else behind ++ (c ∷ [])) cs

-- Of the text reversed: without its last element, and then without the separators before it.
drop_element : Text → Text
drop_element [] = []
drop_element (c ∷ cs) = let shorter = drop_element cs in if c == slash then c ∷ cs else shorter

drop_separators : Text → Text
drop_separators [] = []
drop_separators (c ∷ cs) =
    let shorter = drop_separators cs in if c == slash then shorter else c ∷ cs

abbrev onto : Text → Text → Text
onto [] out = out
onto (c ∷ cs) out = onto cs (c ∷ out)

-- The root stays the root.
abbrev or_root : Text → Text → Text
or_root [] [] = []
or_root (c ∷ cs) [] = slash ∷ []
or_root elements (d ∷ ds) = onto (d ∷ ds) []

-- `path::parent_path`, which is `get_directory`
unfoldable pub get_directory : Text → Text
unfolding drop_element drop_separators
get_directory path =
    let before = drop_element (onto path []) in or_root before (drop_separators before)

abbrev or_parent : Text → Text → Text
or_parent [] path = filename [] (get_directory path)
or_parent (c ∷ cs) path = c ∷ cs

-- `filename` of the path, or of the directory where a separator ends it. Where there is no parent,
-- the text is empty too.
unfoldable pub get_filename : Text → Text
get_filename path = or_parent (filename [] path) path

-- Whether the last character is one of these.
unfoldable pub ends_with : (ℕ → Bool) → Text → Bool
ends_with p [] = false
ends_with p (c ∷ []) = p c
ends_with p (c ∷ d ∷ ds) = ends_with p (d ∷ ds)

is_slash : ℕ → Bool
is_slash c = c == slash

abbrev with_separator : Text → Text
with_separator [] = []
with_separator (c ∷ cs) = if ends_with is_slash (c ∷ cs) then c ∷ cs else (c ∷ cs) ++ (slash ∷ [])

-- `operator/` of paths: an absolute path replaces what is before it.
join_relative : Text → Text → Text
join_relative base [] = with_separator base
join_relative base (c ∷ cs) = if c == slash then c ∷ cs else with_separator base ++ (c ∷ cs)

unfoldable pub join_path : Text → Text → Text
unfolding join_relative is_slash
join_path base relative = join_relative base relative
