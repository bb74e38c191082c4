-- ===== src/Prelude/Trim.antt =====
-- What is left of a text that was trimmed.
use Prim.Native.Nat.{ℕ, ◌≤◌}
use mathlib.Core.Path.{◌≡◌, refl, subst, sym, ap, ◌∙◌}
use mathlib.Core.Logic.{inl, inr}
use mathlib.Core.Bool.{Bool}
use mathlib.Core.List.{[], ◌∷◌, reverse, reverse-cons}
use native.Mathlib.Omega.{arith}
use clerq.Prelude.Tests.{Bool-cases}
use clerq.Prelude.Lists.{All, All-append, length, length-append}
use clerq.Prelude.Codes.{Text, trim_start, trim, is_space}

length-reverse : (s : Text) → length (reverse s) ≡ length s
length-reverse [] = refl
length-reverse (c ∷ s) =
    ap length (reverse-cons c s)
    ∙ omega (arith, length-append (reverse s) (c ∷ []), length-reverse s)

length-trim_start : (space : ℕ → Bool) (s : Text) → length (trim_start space s) ≤ length s
unfolding trim_start
length-trim_start space [] = omega arith
length-trim_start space (c ∷ s) = ground (arith, length-trim_start space s)

pub length-trim : (s : Text) → length (trim s) ≤ length s
unfolding trim
length-trim s =
    let front = trim_start is_space s in
    omega (
      arith,
      length-trim_start is_space s,
      length-reverse front,
      length-trim_start is_space (reverse front),
      length-reverse (trim_start is_space (reverse front)),
    )

module _ (P : ℕ → Type 0) where
  All-reverse : (s : Text) → All P s → All P (reverse s)
  All-reverse [] h = tt
  All-reverse (c ∷ s) (p, h) =
      subst (All P) (sym (reverse-cons c s))
        (All-append P (reverse s) (c ∷ []) (All-reverse s h) (p, tt))

  All-trim_start : (space : ℕ → Bool) (s : Text) → All P s → All P (trim_start space s)
  unfolding trim_start
  All-trim_start space [] h = tt
  All-trim_start space (c ∷ s) (p, h) = elim (Bool-cases (space c)) [
    | inl blank ↦ rw blank (All-trim_start space s h)
    | inr stays ↦ rw stays (p, h)
  ]

  pub All-trim : (s : Text) → All P s → All P (trim s)
  unfolding trim
  All-trim s h =
      let front = trim_start is_space s in
      All-reverse (trim_start is_space (reverse front))
        (All-trim_start is_space (reverse front) (All-reverse front (All-trim_start is_space s h)))
