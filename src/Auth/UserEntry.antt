-- ===== src/Auth/UserEntry.antt =====
-- UserEntry of include/auth/user_db.h, and its methods in src/auth/user_db.cpp. A string is the list
-- of its characters' codes.
pub mod Paths
use net_copy.Common.{
  ℕ, List, [], ◌∷◌, length, take, get_or, Bool, true, false, ◌&&◌, ◌||◌, ◌==◌, leb, same_bytes,
  if◌then◌else◌,
}
use net_copy.Crypto.MlKem.{MlKemLevel}

pub record UserEntry : Type 0 where
  pub username : List ℕ
  pub auth_methods : List (List ℕ)
  pub password_hash_hex : List ℕ
  pub salt_hex : List ℕ
  pub pbkdf2_iterations : ℕ
  pub mlkem_level : MlKemLevel
  pub mlkem_public_key : List ℕ
  pub allowed_paths : List (List ℕ)

-- `std::find(...) != end()`
unfoldable pub contains : List ℕ → List (List ℕ) → Bool
contains name [] = false
contains name (entry ∷ entries) = same_bytes entry name || contains name entries

abbrev pub has_auth_method : UserEntry → List ℕ → Bool
has_auth_method e name = contains name e.auth_methods

-- The path "*"
abbrev pub star : List ℕ
star = 42 ∷ []

-- '/' or '\'
abbrev pub is_separator : ℕ → Bool
is_separator c = c == 47 || c == 92

-- The tests of one round of `can_access_path`. The character behind the prefix is read where there
-- is one.
abbrev pub grants : List ℕ → List ℕ → Bool
grants allowed path =
    if same_bytes allowed star
    then true
    else leb (length allowed) (length path)
      && (same_bytes (take (length allowed) path) allowed
          && (length path == length allowed || is_separator (get_or path (length allowed) 0)))

-- The loop of `can_access_path`.
unfoldable pub any_grants : List (List ℕ) → List ℕ → Bool
any_grants [] path = false
any_grants (allowed ∷ more) path = grants allowed path || any_grants more path

abbrev pub can_access_path : UserEntry → List ℕ → Bool
can_access_path e path = any_grants e.allowed_paths path
