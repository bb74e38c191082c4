-- ===== src/NodeConfig/Settings/Toggle.antt =====
-- A click on a box switches that box alone; the data of a condition.
use clerq.Prelude.{
  ℕ, ◌==◌, ◌≡◌, refl, String, str_eq, eq_iff, eq_refl, ==_iff, has, Bool, true, false, not, ◌&&◌,
  ◌||◌, some, List, [], ◌∷◌, ◌++◌, keep, some_of, lookup, arith, Bool-cases, inl, inr,
  if◌then◌else◌,
}
use clerq.NodeConfig.Settings.{Json, texts, Data, put, toggle, active, toggle_field}

-- The property put is found, and the others as before.
pub lookup-put :
    (k j : String) (v : Json) (d : Data)
    → lookup j (put k v d) ≡ (if str_eq k j then some v else lookup j d)
unfolding lookup
lookup-put k j v [] = refl
lookup-put k j v ((i, w) ∷ d) =
    ground (arith, lookup-put k j v d, eq_iff i k, eq_iff i j, eq_iff k j)

module _ {ℓ} {A : Type ℓ} (eq : A → A → Bool) where
  abbrev pub has_item : A → List A → Bool
  has_item p = some_of (λ x. eq x p)

  -- No item twice.
  abbrev pub IsSingle : List A → Type 0
  IsSingle [] = Unit
  IsSingle (x ∷ xs) = (has_item x xs ≡ false) × IsSingle xs

module _ {ℓ} {A : Type ℓ} (eq : A → A → Bool) (eq-≡ : (x y : A) → eq x y ≡ true → x ≡ y)
    (eq-refl : (x : A) → eq x x ≡ true) where
  has_item-append :
      (p : A) (xs ys : List A) → has_item eq p (xs ++ ys) ≡ (has_item eq p xs || has_item eq p ys)
  has_item-append p [] ys = refl
  has_item-append p (x ∷ xs) ys = ground (arith, has_item-append p xs ys)

  has_item-keep :
      (p k : A) (xs : List A)
      → has_item eq p (keep (λ x. not (eq x k)) xs) ≡ (not (eq k p) && has_item eq p xs)
  has_item-keep p k [] = ground arith
  has_item-keep p k (x ∷ xs) =
      ground (arith, has_item-keep p k xs, eq-≡ x k, eq-≡ x p, eq-≡ k p, eq-refl k, eq-refl p)

  -- membership after a switch
  pub has-toggle :
      (p k : A) (xs : List A)
      → has_item eq p (toggle eq k xs)
        ≡ (if eq k p then not (has_item eq k xs) else has_item eq p xs)
  has-toggle p k xs = elim (Bool-cases (has_item eq k xs)) [
    | inl chosen ↦ ground (arith, has_item-keep p k xs)
    | inr free ↦ ground (arith, has_item-append p xs (k ∷ []), eq-≡ k p)
  ]

  keep-IsSingle : (k : A) (xs : List A) → IsSingle eq xs → IsSingle eq (keep (λ x. not (eq x k)) xs)
  keep-IsSingle k [] h = tt
  keep-IsSingle k (x ∷ xs) (p, h) = elim (Bool-cases (eq x k)) [
    | inl same ↦ rw same (keep-IsSingle k xs h)
    | inr other ↦ rw other (ground (arith, has_item-keep x k xs), keep-IsSingle k xs h)
  ]

  append-IsSingle :
      (k : A) (xs : List A) → has_item eq k xs ≡ false → IsSingle eq xs → IsSingle eq (xs ++ k ∷ [])
  append-IsSingle k [] n h = (refl, tt)
  append-IsSingle k (x ∷ xs) n (p, h) = (
    ground (arith, has_item-append x xs (k ∷ []), eq-≡ k x, eq-refl x),
    append-IsSingle k xs (ground arith) h,
  )

  pub toggle-IsSingle : (k : A) (xs : List A) → IsSingle eq xs → IsSingle eq (toggle eq k xs)
  toggle-IsSingle k xs h = elim (Bool-cases (has_item eq k xs)) [
    | inl chosen ↦ rw chosen (keep-IsSingle k xs h)
    | inr free ↦ rw free (append-IsSingle k xs free h)
  ]

str_eq-≡ : (x y : String) → str_eq x y ≡ true → x ≡ y
str_eq-≡ x y = (eq_iff x y).0

abbrev pub IsOnce : List String → Type 0
IsOnce = IsSingle str_eq

pub ==-≡ : (x y : ℕ) → (x == y) ≡ true → x ≡ y
==-≡ x y = (==_iff x y).0

abbrev pub IsOnceId : List ℕ → Type 0
IsOnceId = IsSingle ◌==◌

-- A click on a field of an e-mail switches that field and no other (where no list is stored, all
-- fields count as chosen), none is chosen twice, and the node's other data is kept.
pub active-toggle_field :
    (k p j : String) (d : Data)
    → IsOnce (active d)
    → (has p (active (toggle_field k d))
        ≡ (if str_eq k p then not (has k (active d)) else has p (active d)))
      × IsOnce (active (toggle_field k d))
      × (lookup j (toggle_field k d)
          ≡ (if str_eq "fields" j then some (texts (active (toggle_field k d))) else lookup j d))
unfolding active toggle_field
active-toggle_field k p j d h =
    let xs = active d in
    rw (lookup-put "fields" "fields" (texts (toggle str_eq k xs)) d) (
      has-toggle str_eq str_eq-≡ eq_refl p k xs,
      toggle-IsSingle str_eq str_eq-≡ eq_refl k xs h,
      lookup-put "fields" j (texts (toggle str_eq k xs)) d,
    )
