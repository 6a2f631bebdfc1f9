-- ===== src/Auth/UserDb/Passwords.antt =====
-- What `verify_password` accepts.
use net_copy.Common.{
  guard_true, ℕ, ◌<◌, ◌≡◌, ◌↔◌, refl, sym, ap, ◌∙◌, List, [], ◌∷◌, length, true, false, Option,
  some, none, ok, same_bytes_self, All, IsByte, arith,
}
use mathlib.Core.Option.{map}
use net_copy.Auth.ConstantTime.{constant_time_equal, constant_time_equal_lem}
use net_copy.Auth.UserEntry.{UserEntry}
use net_copy.Auth.UserDb.{
  UserDb, find, find_user, is_found, user_exists, is_empty, change, change_user, with_password,
  update_password, verify_entry, verify_password,
}
use net_copy.Auth.UserDb.Users.{find-change}
use net_copy.Crypto.Hex.{bytes_to_hex}
use net_copy.Crypto.Hex.RoundTrip.{hex_to_bytes-bytes_to_hex, length-bytes_to_hex}
use net_copy.Crypto.Pbkdf2.{pbkdf2_sha3_256}
use net_copy.Crypto.Pbkdf2.Bytes.{pbkdf2_sha3_256-IsByte, length-pbkdf2_sha3_256}

pub is_empty-lem : (xs : List ℕ) → 0 < length xs → is_empty xs ≡ false
is_empty-lem [] h = absurd (omega arith)
is_empty-lem (x ∷ xs) h = refl

bytes_to_hex_filled : (bs : List ℕ) → 0 < length bs → is_empty (bytes_to_hex bs) ≡ false
bytes_to_hex_filled bs h = is_empty-lem (bytes_to_hex bs) (omega (arith, length-bytes_to_hex bs))

-- The comparison with a password that was set.
verify_entry-with_password :
    (u : UserEntry) (password salt guess : List ℕ)
    → All IsByte salt
    → 0 < length salt
    → verify_entry (some (with_password password salt u)) guess
      ≡ constant_time_equal
          (pbkdf2_sha3_256 guess salt 200000 32)
          (pbkdf2_sha3_256 password salt 200000 32)
verify_entry-with_password u password salt guess hs pos =
    let key = pbkdf2_sha3_256 password salt 200000 32 in
    rw
      (
        bytes_to_hex_filled salt pos,
        bytes_to_hex_filled key
            (omega (arith, length-pbkdf2_sha3_256 password salt 200000 32 (omega arith))),
        hex_to_bytes-bytes_to_hex salt hs,
        hex_to_bytes-bytes_to_hex key (pbkdf2_sha3_256-IsByte password salt 200000 32),
      )
      refl

-- The user of a name after a change.
pub find_user-change_user :
    (db after : UserDb) (f : UserEntry → UserEntry) (name : List ℕ)
    → ((u : UserEntry) → (f u).username ≡ u.username)
    → change_user db f name ≡ ok after
    → (u : UserEntry) × (find_user db name ≡ some u) × (find_user after name ≡ some (f u))
unfolding change_user
find_user-change_user db after f name keeps h =
    let (found, e) =
      guard_true (user_exists db name) (record db { users = change f name db.users }) after _ h in
    let seen : find_user after name ≡ map f (find_user db name) =
      ap (λ (x : UserDb). find name x.users) (sym e)
      ∙ find-change f name name db.users keeps
      ∙ rw (same_bytes_self name) refl in
    go (find_user db name) refl found seen
  where
    go :
        (o : Option UserEntry)
        → find_user db name ≡ o
        → is_found o ≡ true
        → find_user after name ≡ map f o
        → (u : UserEntry) × (find_user db name ≡ some u) × (find_user after name ≡ some (f u))
    go none e y s = cc
    go (some u) e y s = (u, e, s)

-- After a password was set with a salt that is not empty, a guess is accepted exactly if it has the
-- password's derived key under this salt; so the password itself is accepted.
pub verify_password-update_password :
    (db after : UserDb) (name password salt guess : List ℕ)
    → All IsByte salt
    → 0 < length salt
    → update_password db name password salt ≡ ok after
    → (verify_password after name guess ≡ true)
      ↔ (pbkdf2_sha3_256 guess salt 200000 32 ≡ pbkdf2_sha3_256 password salt 200000 32)
unfolding update_password verify_password
verify_password-update_password db after name password salt guess hs pos h =
    let (u, e, s) =
      find_user-change_user db after (with_password password salt) name (λ v. refl) h in
    rw (s, verify_entry-with_password u password salt guess hs pos)
      (constant_time_equal_lem (pbkdf2_sha3_256 guess salt 200000 32)
        (pbkdf2_sha3_256 password salt 200000 32))
