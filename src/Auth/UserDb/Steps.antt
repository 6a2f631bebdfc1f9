-- ===== src/Auth/UserDb/Steps.antt =====
-- Any call that changes the database keeps the names of its users different.
use net_copy.Common.{guard_false, guard_true, ℕ, ◌≡◌, refl, List, [], ◌∷◌, ◌++◌, ok, subst}
use net_copy.Auth.UserEntry.{UserEntry}
use net_copy.Auth.UserDb.{
  UserDb, user_exists, add_user, change, change_user, erase, remove_user, update_password,
  update_public_key, with_password,
}
use net_copy.Crypto.MlKem.{MlKemLevel}
use net_copy.Auth.UserDb.Users.{
  AreDistinct, change-AreDistinct, erase-AreDistinct, append-AreDistinct,
}

-- A call that changed a database.
pub data Step (db after : UserDb) : Type 0 where
  added : (entry : UserEntry) → add_user db entry ≡ ok after → Step db after
  password_set :
      (name password salt : List ℕ)
      → update_password db name password salt ≡ ok after
      → Step db after
  key_set :
      (name pubkey : List ℕ) (level : MlKemLevel)
      → update_public_key db name pubkey level ≡ ok after
      → Step db after
  removed : (name : List ℕ) → remove_user db name ≡ ok after → Step db after

change_user-AreDistinct :
    (db after : UserDb) (f : UserEntry → UserEntry) (name : List ℕ)
    → ((u : UserEntry) → (f u).username ≡ u.username)
    → change_user db f name ≡ ok after
    → AreDistinct db.users
    → AreDistinct after.users
unfolding change_user
change_user-AreDistinct db after f name keeps h d =
    let (found, e) =
      guard_true (user_exists db name) (record db { users = change f name db.users }) after _ h in
    subst (λ (x : UserDb). AreDistinct x.users) e (change-AreDistinct f name db.users keeps d)

-- Whatever is added, changed or removed, no two users get one name.
pub Step-AreDistinct :
    (db after : UserDb) → Step db after → AreDistinct db.users → AreDistinct after.users
unfolding add_user update_password update_public_key remove_user
Step-AreDistinct db after (added entry h) d =
    let (fresh, e) =
      guard_false (user_exists db entry.username) (record db { users = db.users ++ (entry ∷ []) })
        after _ h in
    subst (λ (x : UserDb). AreDistinct x.users) e (append-AreDistinct db.users entry d fresh)
Step-AreDistinct db after (password_set name password salt h) d =
    change_user-AreDistinct db after (with_password password salt) name (λ u. refl) h d
Step-AreDistinct db after (key_set name pubkey level h) d =
    change_user-AreDistinct db after _ name (λ u. refl) h d
Step-AreDistinct db after (removed name h) d =
    let (found, e) =
      guard_true (user_exists db name) (record db { users = erase name db.users }) after _ h in
    subst (λ (x : UserDb). AreDistinct x.users) e (erase-AreDistinct name db.users d)
