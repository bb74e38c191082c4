-- ===== src/PolicyEditor/Order.antt =====
-- Moving a rule of a policy.
use mathlib.Core.List.{Perm}
use mathlib.Core.List.Perm
use clerq.Prelude.{
  ℕ, zero, suc, ◌≡◌, refl, ap, subst, Option-cases, inl, inr, some, List, [], ◌∷◌, arith, then_get,
}
use clerq.PolicyEditor.{Direction, up, down, index_of, swap_next, moved, move_rule}

swap_next-perm : (i : ℕ) (ids : List ℕ) → Perm (swap_next i ids) ids
unfolding swap_next
swap_next-perm i [] = Perm.refl _
swap_next-perm i (x ∷ []) = Perm.refl _
swap_next-perm zero (x ∷ y ∷ ys) = Perm.swap x y ys
swap_next-perm (suc i) (x ∷ y ∷ ys) = Perm.cons x (swap_next-perm i (y ∷ ys))

moved-perm : (direction : Direction) (i : ℕ) (ids : List ℕ) → Perm (moved direction i ids) ids
moved-perm up zero ids = Perm.refl _
moved-perm up (suc i) ids = swap_next-perm i ids
moved-perm down i ids = swap_next-perm i ids

swap_next-twice : (i : ℕ) (ids : List ℕ) → swap_next i (swap_next i ids) ≡ ids
unfolding swap_next
swap_next-twice i [] = refl
swap_next-twice i (x ∷ []) = refl
swap_next-twice zero (x ∷ y ∷ ys) = refl
swap_next-twice (suc i) (x ∷ y ∷ []) = ap (λ r. x ∷ r) (swap_next-twice i (y ∷ []))
swap_next-twice (suc zero) (x ∷ y ∷ z ∷ zs) = refl
swap_next-twice (suc (suc i)) (x ∷ y ∷ z ∷ zs) =
    ap (λ r. x ∷ r) (swap_next-twice (suc i) (y ∷ z ∷ zs))

index_of-swap_next :
    (id i : ℕ) (ids : List ℕ)
    → index_of id ids ≡ some (suc i)
    → index_of id (swap_next i ids) ≡ some i
unfolding index_of swap_next
index_of-swap_next id i [] h = cc
index_of-swap_next id i (x ∷ []) h = ground arith
index_of-swap_next id zero (x ∷ y ∷ ys) h = ground arith
index_of-swap_next id (suc i) (x ∷ y ∷ ys) h =
    let later : index_of id (y ∷ ys) ≡ some (suc i) = ground arith in
    ground (arith, index_of-swap_next id i (y ∷ ys) later)

-- The order sent holds the same rules as before, each as often.
move_rule-perm :
    (ids : List ℕ) (id : ℕ) (direction : Direction) {sent : List ℕ}
    → move_rule ids id direction ≡ some sent
    → Perm sent ids
unfolding move_rule
move_rule-perm ids id direction h = elim (Option-cases (index_of id ids)) [
  | inl e ↦ absurd (ground arith)
  | inr (i, e) ↦
      let eq : moved direction i ids ≡ _ = ground arith in
      subst (λ s. Perm s ids) eq (moved-perm direction i ids)
]

-- A rule that is not the first moves up by one place, and moving it down again restores the order.
move_rule-up_down :
    (ids : List ℕ) (id i : ℕ)
    → index_of id ids ≡ some (suc i)
    → (then_get (move_rule ids id up) (index_of id) ≡ some i)
      × (then_get (move_rule ids id up) (λ sent. move_rule sent id down) ≡ some ids)
unfolding move_rule
move_rule-up_down ids id i h =
    let placed = index_of-swap_next id i ids h in
    (ground (arith, placed), ground (arith, placed, swap_next-twice i ids))
