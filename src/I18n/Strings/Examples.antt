-- ===== src/I18n/Strings/Examples.antt =====
-- The dictionary at concrete keys.
use clerq.Prelude.{
  ◌≡◌, refl, subst, arith, true, String, Text, codes, none, some, is_some, List, [], ◌∷◌, lookup,
}
use clerq.I18n.{en, fr, Vars, value_of, translate}
use clerq.I18n.Fields.{fields}
use clerq.I18n.Parity.{has_text, text_eq-of, merge}
use clerq.I18n.Strings.{modules, dictionary}
use clerq.I18n.Strings.Complete.{translate-parity}

translate-parity_example :
    (is_some (lookup "editor.run.subtitle" dictionary.french)
      ≡ is_some (lookup "editor.run.subtitle" dictionary.english))
    × (has_text (codes "version") (fields none (translate dictionary fr "editor.run.subtitle" none))
        ≡ has_text
            (codes "version")
            (fields none (translate dictionary en "editor.run.subtitle" none)))
translate-parity_example = translate-parity "editor.run.subtitle" (codes "version")

abbrev values : Vars
values = (codes "version", codes "v3") ∷ []

abbrev more_values : Vars
more_values = (codes "user", codes "Ana") ∷ (codes "version", codes "v3") ∷ []

asked :
    (k : Text)
    → has_text k (fields none (translate dictionary en "editor.run.subtitle" none)) ≡ true
    → codes "version" ≡ k
unfolding translate clerq.I18n.interpolate lookup merge modules fields clerq.I18n.Fields.after
    clerq.I18n.Fields.closed
asked k m = text_eq-of (codes "version") k (ground (arith, m))

same_values :
    (k : Text)
    → has_text k (fields none (translate dictionary en "editor.run.subtitle" none)) ≡ true
    → value_of k values ≡ value_of k more_values
unfolding value_of clerq.Prelude.text_eq
same_values k m = subst (λ j. value_of j values ≡ value_of j more_values) (asked k m) refl
