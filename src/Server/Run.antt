-- ===== src/Server/Run.antt =====
-- Code that changes a state and may throw. What was changed before an exception stays changed.
pub mod Laws
use net_copy.Common.{Result, ok, throw, NetCopyException, Bool, if◌then◌else◌}

module _ {W : Type 0} where
  abbrev pub pass : {A B : Type 0} → Result A × W → (A → W → Result B × W) → Result B × W
  pass (ok a, w) f = f a w
  pass (throw e, w) f = (throw e, w)

infixl 5 ◌>>=◌
abbrev pub ◌>>=◌ : {W A B : Type 0} → (W → Result A × W) → (A → W → Result B × W) → W → Result B × W
(m >>= f) w = pass (m w) f

module _ {W : Type 0} where
  abbrev pub return : {A : Type 0} → A → W → Result A × W
  return a w = (ok a, w)

  abbrev pub raise : {A : Type 0} → NetCopyException → W → Result A × W
  raise e w = (throw e, w)

  -- The state, and a change of it.
  abbrev pub current : W → Result W × W
  current w = (ok w, w)

  abbrev pub change : (W → W) → W → Result (Unit {0}) × W
  change f w = (ok tt, f w)

  -- `if (b) throw e;`
  abbrev pub throw_if : Bool → NetCopyException → W → Result (Unit {0}) × W
  throw_if b e w = if b then (throw e, w) else (ok tt, w)
