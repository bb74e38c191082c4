-- ===== src/I18n.antt =====
-- frontend/src/context/i18n.tsx: the language and the translation of keys. The string tables of
-- frontend/src/lib/i18n are a parameter. Texts are code points; `\w` is a letter of ASCII, a digit
-- or an underscore.
pub mod Interpolate
pub mod Fields
pub mod Parity
pub mod Strings
mod Examples
use clerq.Prelude.{
  ℕ, zero, suc, leb, ◌==◌, String, str_eq, Text, codes, text_eq, Bool, true, false, ◌&&◌, ◌||◌,
  Option, none, some, List, [], ◌∷◌, ◌++◌, lookup, get_or, or_else, is_empty, map_get,
  if◌then◌else◌,
}
use text.Mathlib.Text.{starts_with}

pub data Lang : Type 0 where
  en fr : Lang

-- `detectInitial`, on the stored language and the browser's, which is in lower case
unfoldable pub detect_initial : Option String → Option String → Lang
detect_initial stored browser =
    if str_eq (get_or stored "") "en"
    then en
    else if str_eq (get_or stored "") "fr"
    then fr
    else if starts_with (get_or browser "") "fr"
    then fr
    else en

-- `\w`
abbrev pub is_word : ℕ → Bool
is_word c =
    (leb b'a' c && leb c b'z')
    || (leb b'A' c && leb c b'Z')
    || (leb b'0' c && leb c b'9')
    || c == b'_'

abbrev pub open_brace : ℕ
open_brace = b'{'

abbrev pub close_brace : ℕ
close_brace = b'}'

-- The values of `vars`, as their text, by their names.
abbrev pub Vars : Type 0
Vars = List (Text × Text)

unfoldable pub value_of : Text → Vars → Option Text
value_of k [] = none
value_of k ((j, v) ∷ vars) = if text_eq j k then some v else value_of k vars

-- what the replacement of `{k}` is
abbrev pub filled : Vars → Text → Text
filled vars k = get_or (value_of k vars) (open_brace ∷ (k ++ close_brace ∷ []))

-- `template.replace(/\{(\w+)\}/g, …)`. The scan is outside a brace, or has read the open brace and
-- the word characters `k` behind it; where these do not end in a close brace, they are left as
-- they are, and the next character is read as outside.
unfoldable pub scan : Vars → Option Text → Text → Text
scan vars none [] = []
scan vars (some k) [] = open_brace ∷ k
scan vars none (c ∷ s) =
    let opened = scan vars (some []) s in
    let plain = c ∷ scan vars none s in if c == open_brace then opened else plain
scan vars (some k) (c ∷ s) =
    let more = scan vars (some (k ++ c ∷ [])) s in
    let opened = open_brace ∷ (k ++ scan vars (some []) s) in
    let closed = scan vars none s in
    if is_word c
    then more
    else if c == close_brace
    then (if is_empty k then open_brace ∷ close_brace ∷ closed else filled vars k ++ closed)
    else if c == open_brace
    then opened
    else open_brace ∷ (k ++ c ∷ closed)

-- `interpolate`
unfoldable pub interpolate : Text → Option Vars → Text
unfolding scan
interpolate template none = template
interpolate template (some vars) = scan vars none template

-- `dictionary`: a table for each language
pub record Dictionary : Type 0 where
  pub english : List (String × Text)
  pub french : List (String × Text)

abbrev pub table : Dictionary → Lang → List (String × Text)
table d en = d.english
table d fr = d.french

-- `t`
unfoldable pub translate : Dictionary → Lang → String → Option Vars → Text
translate d lang key vars =
    interpolate (get_or (or_else (lookup key (table d lang)) (lookup key d.english)) (codes key))
      vars
