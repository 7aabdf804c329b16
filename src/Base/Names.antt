-- ===== src/Base/Names.antt =====
-- Lists of names with no repetition.
use text.Mathlib.Text.{◌==◌}
use text.Mathlib.TextEquality.{eq_iff}
use Prim.Native.String.{String}
use mathlib.Core.Path.{◌≡◌, refl}
use mathlib.Core.Bool.{Bool, false, ◌||◌}
use mathlib.Core.List.{List, [], ◌∷◌, ◌++◌}
use native.Mathlib.Omega.{arith}

abbrev pub has : String → List String → Bool
has x [] = false
has x (y ∷ ys) = y == x || has x ys

abbrev pub Distinct : List String → Type 0
Distinct [] = Unit
Distinct (x ∷ xs) = (has x xs ≡ false) × Distinct xs

has-snoc :
    (x y : String) (ys : List String)
    → has x ys ≡ false
    → (y == x) ≡ false
    → has x (ys ++ (y ∷ [])) ≡ false
has-snoc x y [] h e = ground arith
has-snoc x y (z ∷ zs) h e = ground (arith, has-snoc x y zs)

pub Distinct-snoc :
    (y : String) (xs : List String) → Distinct xs → has y xs ≡ false → Distinct (xs ++ (y ∷ []))
Distinct-snoc y [] d h = (refl, tt)
Distinct-snoc y (x ∷ xs) d h = (
  has-snoc x y xs d.0 (ground (arith, eq_iff x y, eq_iff y x)),
  Distinct-snoc y xs d.1 (ground arith),
)
