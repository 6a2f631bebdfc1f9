-- ===== src/Auth/UserDb/Lookup.antt =====
-- What a lookup finds after a user was added or removed.
use net_copy.Common.{
  guard_false, guard_true, ℕ, ◌≡◌, refl, sym, ap, ◌∙◌, List, [], ◌∷◌, ◌++◌, false, Option, some,
  none, ok, same_bytes, same_bytes→eq, if◌then◌else◌, Bool-cases, inl, inr,
}
use net_copy.Auth.UserEntry.{UserEntry}
use net_copy.Auth.UserDb.{
  UserDb, find, find_user, is_found, user_exists, add_user, erase, remove_user,
}
use net_copy.Auth.UserDb.Users.{AreDistinct, find-append, find-erase}

not_found : (o : Option UserEntry) → is_found o ≡ false → o ≡ none
not_found none h = refl
not_found (some u) h = cc

none_or : (o : Option UserEntry) → (if is_found o then o else none) ≡ o
none_or none = refl
none_or (some u) = refl

-- A user who was added is found under the new name; every other lookup is as before.
pub find_user-add_user :
    (db after : UserDb) (entry : UserEntry) (name : List ℕ)
    → add_user db entry ≡ ok after
    → find_user after name
      ≡ (if same_bytes entry.username name then some entry else find_user db name)
unfolding add_user
find_user-add_user db after entry name h =
    let (fresh, e) =
      guard_false (user_exists db entry.username) (record db { users = db.users ++ (entry ∷ []) })
        after _ h in
    ap (λ (x : UserDb). find name x.users) (sym e)
    ∙ find-append name db.users entry
    ∙ elim (Bool-cases (same_bytes entry.username name)) [
      | inl y ↦
          rw
            (
              y,
              ap (λ n. find n db.users) (sym (same_bytes→eq entry.username name y))
                  ∙ not_found (find entry.username db.users) fresh,
            )
            refl
      | inr n ↦ rw n (none_or (find name db.users))
    ]

-- A user who was removed is found no more, for no two users had the name; every other lookup is as
-- before.
pub find_user-remove_user :
    (db after : UserDb) (removed name : List ℕ)
    → AreDistinct db.users
    → remove_user db removed ≡ ok after
    → find_user after name ≡ (if same_bytes removed name then none else find_user db name)
unfolding remove_user
find_user-remove_user db after removed name d h =
    let (found, e) =
      guard_true (user_exists db removed) (record db { users = erase removed db.users }) after _
        h in
    ap (λ (x : UserDb). find name x.users) (sym e) ∙ find-erase removed name db.users d
