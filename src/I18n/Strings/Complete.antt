-- ===== src/I18n/Strings/Complete.antt =====
-- French has every key of English, and asks for the same values.
use clerq.Prelude.{
  All-every, ◌≡◌, refl, sym, ◌∙◌, every, String, Bool, Text, Option, none, some, is_some, List, [],
  ◌∷◌, All, true, lookup, codes, get_or, or_else, Option-cases, inl, inr, arith,
}
use clerq.I18n.{en, fr, Dictionary, Vars, value_of, scan, interpolate, translate}
use clerq.I18n.Fields.{fields, scan-fields}
use clerq.I18n.Parity.{
  StringsModule, matches, IsEven, IsParity, has_text, text_eq_refl, merge-IsEven,
}
use clerq.I18n.Strings.{modules, dictionary}

abbrev is_matched : StringsModule → Bool
is_matched m = matches m.en_strings m.fr_strings

modules-matched : every is_matched modules ≡ true
unfolding modules matches fields clerq.I18n.Fields.after clerq.I18n.Fields.closed
    clerq.Prelude.text_eq
modules-matched = refl

dictionary-IsEven : IsEven dictionary
unfolding lookup
dictionary-IsEven =
    merge-IsEven modules (record { english = []; french = [] })
      (All-every is_matched modules modules-matched) (λ k. tt)

-- With the application's string tables, a key has a French text if and only if it has an English one, and the
-- two texts ask for the same placeholders.
pub translate-parity :
    (key : String) (k : Text)
    → (is_some (lookup key dictionary.french) ≡ is_some (lookup key dictionary.english))
      × (has_text k (fields none (translate dictionary fr key none))
          ≡ has_text k (fields none (translate dictionary en key none)))
unfolding translate interpolate
translate-parity key k =
    go (lookup key dictionary.english) (lookup key dictionary.french) (dictionary-IsEven key)
  where
    go :
        (e f : Option Text)
        → IsParity e f
        → (is_some f ≡ is_some e)
          × (has_text k (fields none (get_or (or_else f e) (codes key)))
              ≡ has_text k (fields none (get_or (or_else e e) (codes key))))
    go none none p = (refl, refl)
    go none (some u) p = absurd p
    go (some t) none p = absurd p
    go (some t) (some u) p = (refl, sym (p k))

All-has_text :
    (P : Text → Type 0) (ks : List Text) → ((k : Text) → has_text k ks ≡ true → P k) → All P ks
All-has_text P [] h = tt
All-has_text P (k ∷ ks) h =
    (h k (ground (arith, text_eq_refl k)), All-has_text P ks (λ j m. h j (ground arith)))

-- A French text shows no value but those that the English text of its key asks for: values that
-- agree on the names in the English text give the same French text.
translate-french :
    (key : String) (vars vars' : Vars)
    → ((k : Text)
        → has_text k (fields none (translate dictionary en key none)) ≡ true
        → value_of k vars ≡ value_of k vars')
    → translate dictionary fr key (some vars) ≡ translate dictionary fr key (some vars')
unfolding translate interpolate
translate-french key vars vars' h =
    let shown = translate dictionary fr key none in
    scan-fields vars vars' none shown (
      All-has_text (λ k. value_of k vars ≡ value_of k vars') (fields none shown)
        (λ k m. h k (sym (translate-parity key k).1 ∙ m)))
