-- ===== src/Server/Run/Laws.antt =====
-- What is known of code that did not throw.
use net_copy.Common.{◌≡◌, refl, Result, ok, throw}
use net_copy.Server.Run.{pass}

-- If two pieces of code in a row did not throw, the first gave a value and the second ran on it.
pub passed :
    {W A B : Type 0} (r : Result A × W) (f : A → W → Result B × W) (b : B)
    → (pass r f).0 ≡ ok b
    → (a : A) × (r.0 ≡ ok a) × (pass r f ≡ f a r.1)
passed (ok a, w) f b h = (a, refl, refl)
passed (throw e, w) f b h = cc
