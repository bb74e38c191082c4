-- ===== src/Prelude/Codes.antt =====
-- Text that the code walks: the list of its code points.
use Prim.Native.Nat.{ℕ}
use Prim.Native.Char.{code}
use Prim.Native.String.{String}
use mathlib.Core.Bool.{Bool, true, false, ◌&&◌, ◌||◌}
use mathlib.Core.List.{List, [], ◌∷◌, ◌++◌, reverse}
use clerq.Prelude.Tests.{leb, ◌==◌, if◌then◌else◌}

abbrev pub Text : Type 0
Text = List ℕ

abbrev pub codes : String → Text
codes String.[] = []
codes (String.◌∷◌ c s) = code c ∷ codes s

-- `s === t` on walked text
unfoldable pub text_eq : Text → Text → Bool
text_eq [] [] = true
text_eq (a ∷ s) (b ∷ t) = a == b && text_eq s t
text_eq _ _ = false

-- `!s` on text
abbrev pub is_empty : Text → Bool
is_empty [] = true
is_empty (_ ∷ _) = false

-- `parts.join(sep)`
abbrev pub join : Text → List Text → Text
join sep [] = []
join sep (t ∷ []) = t
join sep (t ∷ u ∷ ts) = t ++ (sep ++ join sep (u ∷ ts))

-- The white space and line ends that `String.prototype.trim` removes.
unfoldable pub is_space : ℕ → Bool
is_space c =
    (leb 9 c && leb c 13)
    || c == 32
    || c == 160
    || c == 5760
    || (leb 8192 c && leb c 8202)
    || c == 8232
    || c == 8233
    || c == 8239
    || c == 8287
    || c == 12288
    || c == 65279

-- `trim`, for a notion of white space: the ends are dropped.
unfoldable pub trim_start : (ℕ → Bool) → Text → Text
trim_start space [] = []
trim_start space (c ∷ s) = let rest = trim_start space s in if space c then rest else c ∷ s

unfoldable pub trim_by : (ℕ → Bool) → Text → Text
unfolding trim_start
trim_by space s = reverse (trim_start space (reverse (trim_start space s)))

-- `String.prototype.trim`
unfoldable pub trim : Text → Text
unfolding trim_by is_space
trim s = trim_by is_space s

unfoldable pub is_prefix : Text → Text → Bool
is_prefix [] s = true
is_prefix (a ∷ q) [] = false
is_prefix (a ∷ q) (b ∷ s) = a == b && is_prefix q s

-- `s.includes(q)`
unfoldable pub includes : Text → Text → Bool
unfolding is_prefix
includes q [] = is_empty q
includes q (c ∷ s) = is_prefix q (c ∷ s) || includes q s
