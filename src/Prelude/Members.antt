-- ===== src/Prelude/Members.antt =====
-- Lists of strings used as sets.
use Prim.Native.String.{String}
use mathlib.Core.Path.{◌≡◌, refl}
use mathlib.Core.Bool.{Bool, false, ◌||◌}
use mathlib.Core.List.{List, [], ◌∷◌, ◌++◌}
use native.Mathlib.Omega.{arith}
use text.Mathlib.Text.{◌==◌ as str_eq}
use text.Mathlib.TextEquality.{eq_iff}
use clerq.Prelude.Lists.{some_of}

-- `xs.includes(p)`
abbrev pub has : String → List String → Bool
has p = some_of (λ q. str_eq q p)

-- No string twice.
abbrev pub IsDistinct : List String → Type 0
IsDistinct [] = Unit
IsDistinct (p ∷ ps) = (has p ps ≡ false) × IsDistinct ps

pub has-append : (p : String) (xs ys : List String) → has p (xs ++ ys) ≡ (has p xs || has p ys)
has-append p [] ys = refl
has-append p (x ∷ xs) ys = ground (arith, has-append p xs ys)

pub IsDistinct-append :
    (out : List String) (p : String)
    → IsDistinct out
    → has p out ≡ false
    → IsDistinct (out ++ p ∷ [])
IsDistinct-append [] p h n = (refl, tt)
IsDistinct-append (q ∷ out) p (fresh, h) n = (
  ground (arith, has-append q out (p ∷ []), eq_iff p q, eq_iff q p),
  IsDistinct-append out p h (ground arith),
)
