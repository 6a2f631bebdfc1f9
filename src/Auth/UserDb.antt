-- ===== src/Auth/UserDb.antt =====
-- The class UserDb of include/auth/user_db.h and src/auth/user_db.cpp, in memory: its users in order.
-- The bytes that `random_bytes` gives are an argument.
pub mod Users
pub mod Steps
pub mod Lookup
pub mod Passwords
use net_copy.Common.{
  ℕ, List, [], ◌∷◌, ◌++◌, Bool, true, false, not, Option, some, none, Result, ok, throw,
  config_exception, same_bytes, if◌then◌else◌, ◌||◌,
}
use net_copy.Auth.ConstantTime.{constant_time_equal}
use net_copy.Auth.UserEntry.{UserEntry}
use net_copy.Crypto.Hex.{bytes_to_hex, hex_to_bytes}
use net_copy.Crypto.MlKem.{MlKemLevel}
use net_copy.Crypto.Pbkdf2.{pbkdf2_sha3_256}

pub record UserDb : Type 0 where
  pub path : List ℕ
  pub users : List UserEntry
  pub loaded : Bool

unfoldable pub find : List ℕ → List UserEntry → Option UserEntry
find name [] = none
find name (u ∷ us) =
    let later = find name us in if same_bytes u.username name then some u else later

-- `find_user` and `find_user_mutable`
abbrev pub find_user : UserDb → List ℕ → Option UserEntry
find_user db name = find name db.users

abbrev pub is_found : Option UserEntry → Bool
is_found none = false
is_found (some u) = true

abbrev pub user_exists : UserDb → List ℕ → Bool
user_exists db name = is_found (find_user db name)

unfoldable pub add_user : UserDb → UserEntry → Result UserDb
add_user db entry =
    if user_exists db entry.username
    then throw (config_exception "User already exists: ")
    else ok (record db { users = db.users ++ (entry ∷ []) })

-- A change of the first user of a name, which `find_user_mutable` points to.
unfoldable pub change : (UserEntry → UserEntry) → List ℕ → List UserEntry → List UserEntry
change f name [] = []
change f name (u ∷ us) =
    let later = change f name us in if same_bytes u.username name then f u ∷ us else u ∷ later

unfoldable pub change_user : UserDb → (UserEntry → UserEntry) → List ℕ → Result UserDb
change_user db f name =
    if user_exists db name
    then ok (record db { users = change f name db.users })
    else throw (config_exception "User not found: ")

-- The fields that `update_password` sets.
abbrev pub with_password : List ℕ → List ℕ → UserEntry → UserEntry
with_password password salt u = record u {
  salt_hex = bytes_to_hex salt;
  password_hash_hex = bytes_to_hex (pbkdf2_sha3_256 password salt 200000 32);
  pbkdf2_iterations = 200000;
}

unfoldable pub update_password : UserDb → List ℕ → List ℕ → List ℕ → Result UserDb
update_password db name new_password salt = change_user db (with_password new_password salt) name

unfoldable pub update_public_key : UserDb → List ℕ → List ℕ → MlKemLevel → Result UserDb
update_public_key db name pubkey level =
    change_user db (λ u. record u { mlkem_public_key = pubkey; mlkem_level = level }) name

unfoldable pub erase : List ℕ → List UserEntry → List UserEntry
erase name [] = []
erase name (u ∷ us) =
    let later = erase name us in if same_bytes u.username name then us else u ∷ later

unfoldable pub remove_user : UserDb → List ℕ → Result UserDb
remove_user db name =
    if user_exists db name
    then ok (record db { users = erase name db.users })
    else throw (config_exception "User not found: ")

abbrev pub is_empty : List ℕ → Bool
is_empty [] = true
is_empty (c ∷ cs) = false

-- The `try` of `verify_password`: an exception is a failure.
abbrev pub compare_hash : Result (List ℕ) → Result (List ℕ) → List ℕ → ℕ → Bool
compare_hash (ok salt) (ok stored) password iterations =
    constant_time_equal (pbkdf2_sha3_256 password salt iterations 32) stored
compare_hash (ok salt) (throw e) password iterations = false
compare_hash (throw e) stored password iterations = false

abbrev pub verify_entry : Option UserEntry → List ℕ → Bool
verify_entry none password = false
verify_entry (some u) password =
    if is_empty u.salt_hex || is_empty u.password_hash_hex
    then false
    else compare_hash (hex_to_bytes u.salt_hex) (hex_to_bytes u.password_hash_hex) password
        u.pbkdf2_iterations

unfoldable pub verify_password : UserDb → List ℕ → List ℕ → Bool
verify_password db name password = verify_entry (find_user db name) password
