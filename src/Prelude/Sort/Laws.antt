-- ===== src/Prelude/Sort/Laws.antt =====
-- What a stable sort promises: order by key, the same items, and the order kept among equal keys.
use mathlib.Core.List.{Perm}
use mathlib.Core.List.Perm
use clerq.Prelude.Tests.{leb, leb→le, if◌then◌else◌, Bool-cases, ◌==◌}
use clerq.Prelude.Lists.{All, keep, length}
use Prim.Native.Nat.{ℕ, suc, ◌≤◌}
use mathlib.Core.Path.{◌≡◌, refl, ap, ◌∙◌}
use mathlib.Core.Logic.{inl, inr}
use mathlib.Core.List.{List, [], ◌∷◌}
use native.Mathlib.Omega.{arith}
use clerq.Prelude.Sort.{insert_by, sort_by}

module _ {ℓ} {A : Type ℓ} (key : A → ℕ) where
  -- Each item's key is at most those of the items behind it.
  abbrev pub IsSortedBy : List A → Type ℓ
  IsSortedBy [] = Unit
  IsSortedBy (x ∷ xs) = All (λ y. key x ≤ key y) xs × IsSortedBy xs

  -- The items of one key, in their order.
  abbrev pub class : ℕ → List A → List A
  class k = keep (λ x. key x == k)

  All-insert_by :
      (n : ℕ) (x : A) (xs : List A)
      → n ≤ key x
      → All (λ y. n ≤ key y) xs
      → All (λ y. n ≤ key y) (insert_by key x xs)
  unfolding insert_by
  All-insert_by n x [] p h = (p, tt)
  All-insert_by n x (y ∷ ys) p (q, h) = elim (Bool-cases (leb (key x) (key y))) [
    | inl e ↦ rw e (p, (q, h))
    | inr e ↦ rw e (q, All-insert_by n x ys p h)
  ]

  All-le : (m n : ℕ) (xs : List A) → m ≤ n → All (λ y. n ≤ key y) xs → All (λ y. m ≤ key y) xs
  All-le m n [] p h = tt
  All-le m n (y ∷ ys) p (q, h) = (omega arith, All-le m n ys p h)

  insert_by-IsSortedBy : (x : A) (xs : List A) → IsSortedBy xs → IsSortedBy (insert_by key x xs)
  unfolding insert_by
  insert_by-IsSortedBy x [] h = (tt, tt)
  insert_by-IsSortedBy x (y ∷ ys) (q, h) = elim (Bool-cases (leb (key x) (key y))) [
    | inl e ↦
        let p : key x ≤ key y = leb→le _ _ e in rw e ((p, All-le (key x) (key y) ys p q), (q, h))
    | inr e ↦ rw e (All-insert_by (key y) x ys (ground arith) q, insert_by-IsSortedBy x ys h)
  ]

  pub sort_by-IsSortedBy : (xs : List A) → IsSortedBy (sort_by key xs)
  unfolding sort_by
  sort_by-IsSortedBy [] = tt
  sort_by-IsSortedBy (x ∷ xs) = insert_by-IsSortedBy x (sort_by key xs) (sort_by-IsSortedBy xs)

  insert_by-perm : (x : A) (xs : List A) → Perm (insert_by key x xs) (x ∷ xs)
  unfolding insert_by
  insert_by-perm x [] = Perm.refl _
  insert_by-perm x (y ∷ ys) = elim (Bool-cases (leb (key x) (key y))) [
    | inl e ↦ rw e (Perm.refl _)
    | inr e ↦ rw e (Perm.trans (Perm.cons y (insert_by-perm x ys)) (Perm.swap x y ys))
  ]

  pub sort_by-perm : (xs : List A) → Perm (sort_by key xs) xs
  unfolding sort_by
  sort_by-perm [] = Perm.refl _
  sort_by-perm (x ∷ xs) =
      Perm.trans (insert_by-perm x (sort_by key xs)) (Perm.cons x (sort_by-perm xs))

  class-insert_by : (k : ℕ) (x : A) (xs : List A) → class k (insert_by key x xs) ≡ class k (x ∷ xs)
  unfolding insert_by
  class-insert_by k x [] = refl
  class-insert_by k x (y ∷ ys) = ground (arith, class-insert_by k x ys)

  -- Items of one key keep their order.
  pub class-sort_by : (k : ℕ) (xs : List A) → class k (sort_by key xs) ≡ class k xs
  unfolding sort_by
  class-sort_by k [] = refl
  class-sort_by k (x ∷ xs) =
      class-insert_by k x (sort_by key xs)
      ∙ ap (λ ys. if key x == k then x ∷ ys else ys) (class-sort_by k xs)

  length-insert_by : (x : A) (xs : List A) → length (insert_by key x xs) ≡ suc (length xs)
  unfolding insert_by
  length-insert_by x [] = refl
  length-insert_by x (y ∷ ys) = ground (arith, length-insert_by x ys)

  pub length-sort_by : (xs : List A) → length (sort_by key xs) ≡ length xs
  unfolding sort_by
  length-sort_by [] = refl
  length-sort_by (x ∷ xs) = length-insert_by x (sort_by key xs) ∙ ap suc (length-sort_by xs)
