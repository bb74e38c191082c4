-- ===== src/Prelude/Last.antt =====
-- The last item of a list that passes a test.
use mathlib.Core.Path.{◌≡◌, refl, sym, ap, subst, ◌∙◌}
use mathlib.Core.Logic.{inl, inr}
use mathlib.Core.Bool.{Bool, true, false}
use mathlib.Core.Option.{Option, none, some}
use mathlib.Core.List.{List, [], ◌∷◌, ◌++◌, reverse, reverse-cons}
use native.Mathlib.Omega.{arith}
use clerq.Prelude.Tests.{Bool-cases, or_else, is_some, if◌then◌else◌}
use clerq.Prelude.Lists.{find, some_of}

module _ {A : Type 0} where
  -- `e` is the last of the list that passes the test.
  abbrev pub IsLastOf : (A → Bool) → List A → Option A → Type 0
  IsLastOf p xs none = some_of p xs ≡ false
  IsLastOf p xs (some e) =
      (before : List A) × (later : List A) × (xs ≡ before ++ e ∷ later)
      × (p e ≡ true)
      × (some_of p later ≡ false)

  find-append_one :
      (p : A → Bool) (xs : List A) (x : A)
      → find p (xs ++ x ∷ []) ≡ or_else (find p xs) (if p x then some x else none)
  find-append_one p [] x = refl
  find-append_one p (y ∷ xs) x = elim (Bool-cases (p y)) [
    | inl passes ↦ rw passes refl
    | inr fails ↦ rw fails (find-append_one p xs x)
  ]

  IsLastOf-cons :
      (p : A → Bool) (x : A) (xs : List A) (o : Option A)
      → IsLastOf p xs o
      → IsLastOf p (x ∷ xs) (or_else o (if p x then some x else none))
  IsLastOf-cons p x xs (some e) (before, later, split, passes, none_later) =
      (x ∷ before, later, ap (λ l. x ∷ l) split, passes, none_later)
  IsLastOf-cons p x xs none h = elim (Bool-cases (p x)) [
    | inl passes ↦ rw passes ([], xs, refl, passes, h)
    | inr fails ↦ rw fails (rw fails h)
  ]

  pub last_of : (p : A → Bool) (xs : List A) → IsLastOf p xs (find p (reverse xs))
  last_of p [] = refl
  last_of p (x ∷ xs) =
      subst (IsLastOf p (x ∷ xs))
        (sym (ap (find p) (reverse-cons x xs) ∙ find-append_one p (reverse xs) x))
        (IsLastOf-cons p x xs (find p (reverse xs)) (last_of p xs))

  some_of-middle :
      (p : A → Bool) (xs ys : List A) (e : A) → p e ≡ true → some_of p (xs ++ e ∷ ys) ≡ true
  some_of-middle p [] ys e h = ground arith
  some_of-middle p (x ∷ xs) ys e h = ground (arith, some_of-middle p xs ys e h)

  -- There is a last one where there is one at all.
  pub is_some-last :
      (p : A → Bool) (xs : List A) (o : Option A) → IsLastOf p xs o → some_of p xs ≡ is_some o
  is_some-last p xs none h = h
  is_some-last p xs (some e) (before, later, split, passes, _) =
      ap (some_of p) split ∙ some_of-middle p before later e passes
