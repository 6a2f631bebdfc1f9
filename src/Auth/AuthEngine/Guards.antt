-- ===== src/Auth/AuthEngine/Guards.antt =====
-- Whom the server challenges.
use net_copy.Common.{
  ℕ, ◌≡◌, ◌⊎◌, inl, inr, refl, List, Bool, true, false, not, Option, some, none, Result, ok, throw,
  NetCopyException, if◌then◌else◌,
}
use net_copy.Auth.UserEntry.{UserEntry, has_auth_method}
use net_copy.Auth.UserDb.{UserDb, find_user}
use net_copy.Auth.AuthEngine.{
  AuthMethod, method_none, method_password, method_mlkem, AuthChallengeData, password_name,
  mlkem_name, prepare_challenge, challenge_for, password_challenge, mlkem_challenge,
}
use net_copy.Crypto.MlKem.{MlKemLevel, OqsKem}

-- A guard that throws was passed.
passed :
    {A : Type 0} (b : Bool) (e : NetCopyException) (r : Result A) (a : A)
    → (if not b then throw e else r) ≡ ok a
    → b ≡ true
passed true e r a h = refl
passed false e r a h = cc

-- The method is one that the user may use.
abbrev pub IsEnabled : UserEntry → AuthMethod → Type 0
IsEnabled user method =
    ((method ≡ method_password) × (has_auth_method user password_name ≡ true))
    ⊎ ((method ≡ method_mlkem) × (has_auth_method user mlkem_name ≡ true))

challenge_for_sound :
    (kem_new : MlKemLevel → Option OqsKem) (found : Option UserEntry) (method : AuthMethod)
    (nonce : List ℕ) (challenge : AuthChallengeData)
    → challenge_for kem_new found method nonce ≡ ok challenge
    → (user : UserEntry) × (found ≡ some user) × IsEnabled user method
unfolding challenge_for password_challenge mlkem_challenge
challenge_for_sound kem_new none method nonce challenge h = cc
challenge_for_sound kem_new (some user) method_none nonce challenge h = cc
challenge_for_sound kem_new (some user) method_password nonce challenge h =
    (user, refl, inl (refl, passed (has_auth_method user password_name) _ _ challenge h))
challenge_for_sound kem_new (some user) method_mlkem nonce challenge h =
    (user, refl, inr (refl, passed (has_auth_method user mlkem_name) _ _ challenge h))

-- The server challenges nobody but a user of its database, and only by a method enabled for this
-- user; a request without a method gets no challenge.
pub prepare_challenge_sound :
    (kem_new : MlKemLevel → Option OqsKem) (db : UserDb) (name : List ℕ) (method : AuthMethod)
    (nonce : List ℕ) (challenge : AuthChallengeData)
    → prepare_challenge kem_new db name method nonce ≡ ok challenge
    → (user : UserEntry) × (find_user db name ≡ some user) × IsEnabled user method
unfolding prepare_challenge
prepare_challenge_sound kem_new db name method nonce challenge h =
    challenge_for_sound kem_new (find_user db name) method nonce challenge h
