-- ===== src/I18n/Examples.antt =====
-- A template, on which the theorem about interpolation is applied.
use clerq.Prelude.{◌≡◌, refl, codes, text_eq, List, [], ◌∷◌, some, All}
use clerq.I18n.{Vars, value_of, scan, interpolate}
use clerq.I18n.Interpolate.{Piece, plain, hole, IsPiece, template, shown, interpolate-template}

abbrev vars : Vars
vars = (codes "id", codes "{n}") ∷ []

-- "#{id} {x}"
abbrev pieces : List Piece
pieces = plain b'#' ∷ hole (codes "id") ∷ plain b' ' ∷ hole (codes "x") ∷ []

interpolate_tests :
    (interpolate (codes "#{id} {x}") (some vars) ≡ codes "#{n} {x}")
    × (interpolate (codes "{} {a{id}") (some vars) ≡ codes "{} {a{n}")
unfolding interpolate scan value_of text_eq
interpolate_tests = (refl, refl)

pieces-IsPiece : All IsPiece pieces
pieces-IsPiece = (refl, ((refl, (refl, (refl, tt))), (refl, ((refl, (refl, tt)), tt))))

interpolate-template_example : interpolate (template pieces) (some vars) ≡ shown vars pieces
interpolate-template_example = interpolate-template vars pieces pieces-IsPiece
