-- ===== src/Auth/Tests.antt =====
-- Runs at a small user database, and the theorems at inputs that meet their hypotheses.
use net_copy.Common.{
  AnyOf, ℕ, zero, suc, ◌<◌, ◌≡◌, ◌↔◌, refl, List, [], ◌∷◌, replicate, true, false, some, none, ok,
  All, IsByte, arith, same_bytes, same_bytes_self, if◌then◌else◌,
}
use net_copy.Auth.Fields.{escape_field, unescape_field, split_semicolon_raw}
use net_copy.Auth.Fields.RoundTrip.{
  unescape_field-escape_field, AreRaw, saved_line, split-saved_line,
}
use net_copy.Auth.UserEntry.{UserEntry, any_grants, contains, can_access_path, has_auth_method}
use net_copy.Auth.UserEntry.Paths.{Grants, can_access_path_lem}
use net_copy.Auth.UserDb.{
  UserDb, find, find_user, add_user, change, change_user, with_password, update_password,
  verify_password, remove_user, erase,
}
use net_copy.Auth.UserDb.Users.{AreDistinct}
use net_copy.Auth.UserDb.Steps.{added, Step-AreDistinct}
use net_copy.Auth.UserDb.Lookup.{find_user-add_user, find_user-remove_user}
use net_copy.Auth.UserDb.Passwords.{verify_password-update_password}
use net_copy.Auth.AuthEngine.{
  method_password, method_mlkem, password_name, mlkem_name, prepare_challenge, verify_response,
  password_proof, mlkem_proof,
}
use net_copy.Auth.AuthEngine.Agreement.{Passes, password-Passes, mlkem-Passes, verify_response_lem}
use net_copy.Auth.AuthEngine.Guards.{IsEnabled, prepare_challenge_sound}
use net_copy.Crypto.MlKem.{mlkem_768, OqsKem}
use net_copy.Crypto.Pbkdf2.{pbkdf2_sha3_256}

All-replicate : (n b : ℕ) → b < 256 → All IsByte (replicate n b)
All-replicate zero b h = tt
All-replicate (suc n) b h = (h, All-replicate n b h)

-- "al", with both methods and the path "/d".
abbrev al : UserEntry
al = record {
  username = 97 ∷ 108 ∷ [];
  auth_methods = password_name ∷ mlkem_name ∷ [];
  password_hash_hex = [];
  salt_hex = [];
  pbkdf2_iterations = 200000;
  mlkem_level = mlkem_768;
  mlkem_public_key = 1 ∷ 2 ∷ [];
  allowed_paths = (47 ∷ 100 ∷ []) ∷ [];
}

abbrev bo : UserEntry
bo = record al { username = 98 ∷ 111 ∷ [] }

abbrev one_user : UserDb
one_user = record { path = []; users = al ∷ []; loaded = true }

abbrev two_users : UserDb
two_users = record { path = []; users = al ∷ bo ∷ []; loaded = true }

abbrev test_salt : List ℕ
test_salt = replicate 16 9

abbrev test_password : List ℕ
test_password = 112 ∷ 119 ∷ []

abbrev with_new_password : UserDb
with_new_password = record {
  path = [];
  users = with_password test_password test_salt al ∷ [];
  loaded = true;
}

bo-is-new : same_bytes al.username bo.username ≡ false
unfolding same_bytes
bo-is-new = refl

found_al : find_user one_user al.username ≡ some al
unfolding find
found_al = rw (same_bytes_self al.username) refl

set_password : update_password one_user al.username test_password test_salt ≡ ok with_new_password
unfolding update_password change_user change find
set_password = rw (same_bytes_self al.username) refl

add_bo : add_user one_user bo ≡ ok two_users
unfolding add_user find same_bytes
add_bo = refl

remove_al : remove_user two_users al.username ≡ ok (record two_users { users = bo ∷ [] })
unfolding remove_user find erase same_bytes
remove_al = refl

two_users-AreDistinct : AreDistinct two_users.users
unfolding find same_bytes
two_users-AreDistinct = (refl, (refl, tt))

escape_test : escape_field (97 ∷ 59 ∷ 92 ∷ []) ≡ 97 ∷ 92 ∷ 59 ∷ 92 ∷ 92 ∷ []
unfolding escape_field
escape_test = refl

-- The text of a path is tested as it is.
dots_test : can_access_path al (47 ∷ 100 ∷ 47 ∷ 46 ∷ 46 ∷ 47 ∷ 120 ∷ []) ≡ true
unfolding any_grants same_bytes
dots_test = refl

-- An entry that ends in a separator grants itself and nothing below.
slash_test : can_access_path (record al { allowed_paths = (47 ∷ []) ∷ [] }) (47 ∷ 120 ∷ []) ≡ false
unfolding any_grants same_bytes
slash_test = refl

unescape_field-escape_field_example : unescape_field (escape_field (59 ∷ 92 ∷ [])) ≡ 59 ∷ 92 ∷ []
unescape_field-escape_field_example = unescape_field-escape_field (59 ∷ 92 ∷ [])

x_raw : AreRaw ((120 ∷ []) ∷ [] ∷ [])
x_raw = (((λ e. omega (arith, e)), (λ e. omega (arith, e)), tt), (tt, tt))

split-saved_line_example :
    (split_semicolon_raw (saved_line (59 ∷ 92 ∷ []) ((120 ∷ []) ∷ [] ∷ []))
      ≡ escape_field (59 ∷ 92 ∷ []) ∷ (120 ∷ []) ∷ [] ∷ [])
    × (unescape_field (escape_field (59 ∷ 92 ∷ [])) ≡ 59 ∷ 92 ∷ [])
split-saved_line_example = split-saved_line (59 ∷ 92 ∷ []) ((120 ∷ []) ∷ [] ∷ []) x_raw

can_access_path_lem_example :
    (can_access_path al (47 ∷ 100 ∷ 47 ∷ 120 ∷ []) ≡ true)
    ↔ AnyOf (λ allowed. Grants allowed (47 ∷ 100 ∷ 47 ∷ 120 ∷ [])) al.allowed_paths
can_access_path_lem_example = can_access_path_lem al (47 ∷ 100 ∷ 47 ∷ 120 ∷ [])

Step-AreDistinct_example : AreDistinct two_users.users
Step-AreDistinct_example =
    Step-AreDistinct one_user two_users (added bo add_bo) (unfold find in (refl, tt))

find_user-add_user_example :
    find_user two_users al.username
    ≡ (if same_bytes bo.username al.username then some bo else find_user one_user al.username)
find_user-add_user_example = find_user-add_user one_user two_users bo al.username add_bo

find_user-remove_user_example :
    find_user (record two_users { users = bo ∷ [] }) al.username
    ≡ (if same_bytes al.username al.username then none else find_user two_users al.username)
find_user-remove_user_example =
    find_user-remove_user two_users (record two_users { users = bo ∷ [] }) al.username al.username
      two_users-AreDistinct remove_al

salt-IsByte : All IsByte test_salt
salt-IsByte = All-replicate 16 9 (omega arith)

verify_password-update_password_example :
    (verify_password with_new_password al.username test_password ≡ true) ↔ (
      pbkdf2_sha3_256 test_password test_salt 200000 32
      ≡ pbkdf2_sha3_256 test_password test_salt 200000 32)
verify_password-update_password_example =
    verify_password-update_password one_user with_new_password al.username test_password test_salt
      test_password salt-IsByte (omega arith) set_password

al-may : has_auth_method al password_name ≡ true
unfolding contains same_bytes
al-may = refl

al-may-kem : has_auth_method al mlkem_name ≡ true
unfolding contains same_bytes
al-may-kem = refl

password-Passes_example :
    Passes
      (prepare_challenge
        (λ level. none)
        with_new_password
        al.username
        method_password
        (replicate 32 1))
      (λ c. password_proof c test_password)
password-Passes_example =
    password-Passes (λ level. none) one_user with_new_password al.username test_password test_salt
      (replicate 32 1) al salt-IsByte set_password found_al al-may

-- A mechanism in which the private key is the public one and the ciphertext is the secret.
abbrev plain_kem : OqsKem
plain_kem = record {
  length_public_key = 2;
  length_secret_key = 2;
  length_ciphertext = 2;
  encaps = λ public_key. some (public_key, public_key);
  decaps = λ private_key ciphertext. some ciphertext;
}

mlkem-Passes_example :
    Passes
      (prepare_challenge
        (λ level. some plain_kem)
        one_user
        al.username
        method_mlkem
        (replicate 32 1))
      (λ c. mlkem_proof (some plain_kem) c (1 ∷ 2 ∷ []))
mlkem-Passes_example =
    mlkem-Passes (λ level. some plain_kem) one_user al.username (replicate 32 1) (1 ∷ 2 ∷ []) al
      plain_kem (1 ∷ 2 ∷ []) (1 ∷ 2 ∷ []) found_al al-may-kem refl (omega arith) refl refl refl refl
      refl

prepare_challenge_sound_example :
    (user : UserEntry) × (find_user with_new_password al.username ≡ some user)
    × IsEnabled user method_password
prepare_challenge_sound_example =
    prepare_challenge_sound (λ level. none) with_new_password al.username method_password
      (replicate 32 1) password-Passes_example.challenge password-Passes_example.sent

verify_response_lem_example :
    (verify_response password-Passes_example.challenge (1 ∷ []) ≡ true)
    ↔ (1 ∷ [] ≡ password-Passes_example.challenge.expected_proof)
verify_response_lem_example = verify_response_lem password-Passes_example.challenge (1 ∷ [])
