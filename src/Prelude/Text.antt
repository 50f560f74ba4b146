-- ===== src/Prelude/Text.antt =====
-- Task ids are Python strings: compared for equality, and hashed.
use Prim.Native.String.{String}
use mathlib.Core.Path.{◌≡◌}
use mathlib.Core.Bool.{true}
use native.Mathlib.Omega.{arith}
pub use text.Mathlib.Text.{◌==◌}
pub use text.Mathlib.TextEquality.{eq_iff}
pub use text.Mathlib.TextPositions.{eq_refl}

pub eq_comm : (a b : String) → (a == b) ≡ (b == a)
eq_comm a b = ground (arith, eq_iff a b, eq_iff b a)

pub eq_sound : (a b : String) → (a == b) ≡ true → a ≡ b
eq_sound a b = (eq_iff a b).0
