-- ===== src/I18n/Parity.antt =====
-- frontend/src/lib/i18n/dictionary.ts: the French tables against the English ones.
use clerq.Prelude.{
  ◌≡◌, refl, All, or_else, String, str_eq, eq_iff, Bool, true, false, ◌&&◌, Text, text_eq, codes,
  Option, none, some, List, [], ◌∷◌, ◌++◌, some_of, map, lookup, arith, Bool-cases, inl, inr,
}
use clerq.I18n.{Dictionary}
use clerq.I18n.Fields.{fields}

pub record StringsModule : Type 0 where
  pub en_strings : List (String × String)
  pub fr_strings : List (String × String)

abbrev pub texts : List (String × String) → List (String × Text)
texts = map (λ (k, t). (k, codes t))

-- `Object.assign(en, mod.en)` and the same for `fr`: what is assigned last is found first.
abbrev assign : Dictionary → StringsModule → Dictionary
assign d m = record {
  english = texts m.en_strings ++ d.english;
  french = texts m.fr_strings ++ d.french;
}

-- the loop over the modules
unfoldable pub merge : List StringsModule → Dictionary → Dictionary
merge [] d = d
merge (m ∷ ms) d = merge ms (assign d m)

abbrev pub has_text : Text → List Text → Bool
has_text k = some_of (λ t. text_eq t k)

abbrev pub within : List Text → List Text → Bool
within [] ys = true
within (x ∷ xs) ys = has_text x ys && within xs ys

-- The same keys in the same order, with texts that ask for the same names.
unfoldable pub matches : List (String × String) → List (String × String) → Bool
matches [] [] = true
matches ((k, t) ∷ xs) ((j, u) ∷ ys) =
    let a = fields none (codes t) in
    let b = fields none (codes u) in str_eq k j && (within a b && within b a) && matches xs ys
matches _ _ = false

pub text_eq_refl : (s : Text) → text_eq s s ≡ true
unfolding text_eq
text_eq_refl [] = refl
text_eq_refl (c ∷ s) = ground (arith, text_eq_refl s)

pub text_eq-of : (s t : Text) → text_eq s t ≡ true → s ≡ t
unfolding text_eq
text_eq-of [] [] h = refl
text_eq-of [] (d ∷ t) h = cc
text_eq-of (c ∷ s) [] h = cc
text_eq-of (c ∷ s) (d ∷ t) h = ground (arith, text_eq-of s t)

has_text-within :
    (k : Text) (xs ys : List Text)
    → within xs ys ≡ true
    → has_text k xs ≡ true
    → has_text k ys ≡ true
has_text-within k [] ys h m = cc
has_text-within k (x ∷ xs) ys h m = elim (Bool-cases (text_eq x k)) [
  | inl same ↦ ground (arith, text_eq-of x k same)
  | inr other ↦ ground (arith, has_text-within k xs ys)
]

-- The same names are asked for.
abbrev pub IsParity : Option Text → Option Text → Type 0
IsParity none none = Unit
IsParity (some t) (some u) = (k : Text) → has_text k (fields none t) ≡ has_text k (fields none u)
IsParity _ _ = ⊥

within-same :
    (k : Text) (xs ys : List Text)
    → within xs ys ≡ true
    → within ys xs ≡ true
    → has_text k xs ≡ has_text k ys
within-same k xs ys h g = ground (arith, has_text-within k xs ys h, has_text-within k ys xs g)

-- Tables that match have parity at each key.
pub IsParity-matches :
    (k : String) (xs ys : List (String × String))
    → matches xs ys ≡ true
    → IsParity (lookup k (texts xs)) (lookup k (texts ys))
unfolding matches lookup
IsParity-matches k [] [] h = tt
IsParity-matches k [] (y ∷ ys) h = absurd (ground arith)
IsParity-matches k (x ∷ xs) [] h = absurd (ground arith)
IsParity-matches k ((j, t) ∷ xs) ((i, u) ∷ ys) h = elim (Bool-cases (str_eq j k)) [
  | inl same ↦
      let same_too : str_eq i k ≡ true = ground (arith, eq_iff j k, eq_iff j i, eq_iff i k) in
      rw (same, same_too)
        (λ n.
          within-same n (fields none (codes t)) (fields none (codes u)) (ground arith)
            (ground arith))
  | inr other ↦
      let other_too : str_eq i k ≡ false = ground (arith, eq_iff j k, eq_iff j i, eq_iff i k) in
      rw (other, other_too) (IsParity-matches k xs ys (ground arith))
]

lookup-append :
    (k : String) (xs ys : List (String × Text))
    → lookup k (xs ++ ys) ≡ or_else (lookup k xs) (lookup k ys)
unfolding lookup
lookup-append k [] ys = refl
lookup-append k ((j, t) ∷ xs) ys = elim (Bool-cases (str_eq j k)) [
  | inl same ↦ rw same refl
  | inr other ↦ rw other (lookup-append k xs ys)
]

IsParity-or_else :
    (a b c d : Option Text) → IsParity a b → IsParity c d → IsParity (or_else a c) (or_else b d)
IsParity-or_else none none c d p q = q
IsParity-or_else none (some u) c d p q = absurd p
IsParity-or_else (some t) none c d p q = absurd p
IsParity-or_else (some t) (some u) c d p q = p

-- The two tables of a dictionary have parity at every key.
abbrev pub IsEven : Dictionary → Type 0
IsEven d = (k : String) → IsParity (lookup k d.english) (lookup k d.french)

abbrev pub IsMatched : StringsModule → Type 0
IsMatched m = matches m.en_strings m.fr_strings ≡ true

pub merge-IsEven :
    (ms : List StringsModule) (d : Dictionary) → All IsMatched ms → IsEven d → IsEven (merge ms d)
unfolding merge
merge-IsEven [] d h e = e
merge-IsEven (m ∷ ms) d (p, h) e = merge-IsEven ms (assign d m) h (λ k.
    rw (lookup-append k (texts m.en_strings) d.english) (
      rw (lookup-append k (texts m.fr_strings) d.french) (
        IsParity-or_else (lookup k (texts m.en_strings)) (lookup k (texts m.fr_strings))
          (lookup k d.english) (lookup k d.french) (IsParity-matches k m.en_strings m.fr_strings p)
          (e k))))
