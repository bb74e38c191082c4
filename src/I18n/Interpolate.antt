-- ===== src/I18n/Interpolate.antt =====
-- A template as its pieces: interpolation fills the placeholders and leaves the rest.
use clerq.Prelude.{
  ℕ, ◌==◌, ◌≡◌, refl, ap, ◌∙◌, true, false, Text, some, List, [], ◌∷◌, ◌++◌, All, append-nil,
  append_assoc, is_empty,
}
use clerq.I18n.{is_word, open_brace, close_brace, Vars, filled, scan, interpolate}

-- A piece of a template: a character that is no open brace, or a placeholder.
pub data Piece : Type 0 where
  plain : ℕ → Piece
  hole : Text → Piece

abbrev pub IsPiece : Piece → Type 0
IsPiece (plain c) = (c == open_brace) ≡ false
IsPiece (hole k) = (is_empty k ≡ false) × All (λ c. is_word c ≡ true) k

-- the template made of pieces
abbrev pub template : List Piece → Text
template [] = []
template (plain c ∷ ps) = c ∷ template ps
template (hole k ∷ ps) = open_brace ∷ (k ++ close_brace ∷ template ps)

-- the text shown
abbrev pub shown : Vars → List Piece → Text
shown vars [] = []
shown vars (plain c ∷ ps) = c ∷ shown vars ps
shown vars (hole k ∷ ps) = filled vars k ++ shown vars ps

scan-word :
    (vars : Vars) (k rest s : Text)
    → All (λ c. is_word c ≡ true) rest
    → scan vars (some k) (rest ++ s) ≡ scan vars (some (k ++ rest)) s
unfolding scan
scan-word vars k [] s h = rw append-nil refl
scan-word vars k (c ∷ rest) s (p, h) = rw p (
    scan-word vars (k ++ c ∷ []) rest s h
    ∙ ap (λ j. scan vars (some j) s) (append_assoc k (c ∷ []) rest))

-- In a template of placeholders and of characters that are no open brace, interpolation replaces
-- each placeholder by its value, or leaves it where it has none, and keeps the characters. A value
-- with braces in it is not filled again.
pub interpolate-template :
    (vars : Vars) (ps : List Piece)
    → All IsPiece ps
    → interpolate (template ps) (some vars) ≡ shown vars ps
unfolding interpolate scan
interpolate-template vars [] h = refl
interpolate-template vars (plain c ∷ ps) (p, h) =
    rw p (ap (λ s. c ∷ s) (interpolate-template vars ps h))
interpolate-template vars (hole k ∷ ps) ((n, p), h) =
    scan-word vars [] k (close_brace ∷ template ps) p
    ∙ rw n (ap (λ s. filled vars k ++ s) (interpolate-template vars ps h))
