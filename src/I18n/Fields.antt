-- ===== src/I18n/Fields.antt =====
-- The names that a template asks for, and that its text depends on nothing else.
use clerq.Prelude.{
  ℕ, ◌==◌, ◌≡◌, refl, ap, sym, subst, ◌∙◌, append_assoc, All-append_parts, not, ◌&&◌, Text,
  is_empty, Option, none, some, List, [], ◌∷◌, ◌++◌, All, arith, Bool-cases, inl, inr,
  if◌then◌else◌,
}
use clerq.I18n.{is_word, open_brace, close_brace, Vars, value_of, filled, scan}

-- what has been read of a placeholder, after one more character
unfoldable pub after : Option Text → ℕ → Option Text
after none c = if c == open_brace then some [] else none
after (some k) c =
    if is_word c then some (k ++ c ∷ []) else if c == open_brace then some [] else none

-- the placeholder that a character closes
unfoldable pub closed : Option Text → ℕ → List Text
closed none c = []
closed (some k) c =
    if is_word c then [] else if c == close_brace && not (is_empty k) then k ∷ [] else []

-- the names of the placeholders
unfoldable pub fields : Option Text → Text → List Text
unfolding after closed
fields k [] = []
fields k (c ∷ s) = closed k c ++ fields (after k c) s

-- The values are the same for all the names.
abbrev pub IsSame : Vars → Vars → List Text → Type 0
IsSame vars vars' = All (λ k. value_of k vars ≡ value_of k vars')

-- what one more character shows
abbrev emitted : Vars → Option Text → ℕ → Text
emitted vars none c = if c == open_brace then [] else c ∷ []
emitted vars (some k) c =
    if is_word c
    then []
    else if c == close_brace
    then (if is_empty k then open_brace ∷ close_brace ∷ [] else filled vars k)
    else if c == open_brace
    then open_brace ∷ k
    else open_brace ∷ (k ++ c ∷ [])

scan-after :
    (vars : Vars) (k : Option Text) (c : ℕ) (s : Text)
    → scan vars k (c ∷ s) ≡ emitted vars k c ++ scan vars (after k c) s
unfolding scan after
scan-after vars none c s = ground arith
scan-after vars (some k) c s =
    let assoc = append_assoc k (c ∷ []) (scan vars none s) in ground (arith, assoc)

emitted-IsSame :
    (vars vars' : Vars) (k : Option Text) (c : ℕ)
    → IsSame vars vars' (closed k c)
    → emitted vars k c ≡ emitted vars' k c
unfolding closed
emitted-IsSame vars vars' none c h = refl
emitted-IsSame vars vars' (some k) c h = elim (Bool-cases (is_word c)) [
  | inl word ↦ rw word refl
  | inr other ↦ elim (Bool-cases (c == close_brace)) [
    | inr plain ↦ rw (other, plain) refl
    | inl close ↦ elim (Bool-cases (is_empty k)) [
      | inl bare ↦ rw (other, close, bare) refl
      | inr named ↦
          let one : closed (some k) c ≡ k ∷ [] = rw (other, close, named) refl in
          let (e, _) = subst (IsSame vars vars') one h in rw (other, close, named, e) refl
    ]
  ]
]

-- The text shown depends on the values of its placeholders only.
pub scan-fields :
    (vars vars' : Vars) (k : Option Text) (s : Text)
    → IsSame vars vars' (fields k s)
    → scan vars k s ≡ scan vars' k s
unfolding fields scan
scan-fields vars vars' none [] h = refl
scan-fields vars vars' (some k) [] h = refl
scan-fields vars vars' k (c ∷ s) h =
    let (first, rest) =
      All-append_parts (λ j. value_of j vars ≡ value_of j vars') (closed k c) (fields (after k c) s)
        h in
    scan-after vars k c s
    ∙ ap (λ t. t ++ scan vars (after k c) s) (emitted-IsSame vars vars' k c first)
    ∙ ap (λ t. emitted vars' k c ++ t) (scan-fields vars vars' (after k c) s rest)
    ∙ sym (scan-after vars' k c s)
