-- ===== src/Common/Exceptions.antt =====
-- include/exceptions.h: a call returns a value or throws one of the program's exceptions.
use Prim.Native.String.{String}
use mathlib.Core.Path.{◌≡◌, refl}
use mathlib.Core.Bool.{Bool, true, false}
use net_copy.Common.Tests.{if◌then◌else◌}

-- The classes of include/exceptions.h, each with the text it was thrown with, less the names and
-- values that the code puts behind it.
pub data NetCopyException : Type 0 where
  network_exception : String → NetCopyException
  crypto_exception : String → NetCopyException
  file_exception : String → NetCopyException
  config_exception : String → NetCopyException
  protocol_exception : String → NetCopyException
  auth_exception : String → NetCopyException
  file_skipped_exception : String → NetCopyException
  -- `std::runtime_error`, which some parts throw in place of a class of their own.
  runtime_error : String → NetCopyException

pub data Result {ℓ} (A : Type ℓ) : Type ℓ where
  ok : A → Result A
  throw : NetCopyException → Result A

pub ok-injective {ℓ} : {A : Type ℓ} {a b : A} → Result.ok a ≡ ok b → a ≡ b
ok-injective h = cc

-- A call that goes on with the value of another, or passes its exception on.
abbrev pub and_then {ℓ ℓ'} : {A : Type ℓ} {B : Type ℓ'} → Result A → (A → Result B) → Result B
and_then (ok a) f = f a
and_then (throw e) f = throw e

-- What an operation with a guard returned.
pub guard_false :
    {A : Type 0} (b : Bool) (x y : A) (e : NetCopyException)
    → (if b then throw e else ok x) ≡ ok y
    → (b ≡ false) × (x ≡ y)
guard_false true x y e h = cc
guard_false false x y e h = (refl, ok-injective h)

pub guard_true :
    {A : Type 0} (b : Bool) (x y : A) (e : NetCopyException)
    → (if b then ok x else throw e) ≡ ok y
    → (b ≡ true) × (x ≡ y)
guard_true true x y e h = (refl, ok-injective h)
guard_true false x y e h = cc

-- A call that returned what another made of its value.
pub and_then_ok :
    {A B : Type 0} (r : Result A) (f : A → Result B) (y : B)
    → and_then r f ≡ ok y
    → (a : A) × (r ≡ ok a) × (f a ≡ ok y)
and_then_ok (ok a) f y h = (a, refl, h)
and_then_ok (throw e) f y h = cc
