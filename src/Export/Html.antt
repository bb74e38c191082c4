-- ===== src/Export/Html.antt =====
-- Escaped text as an HTML parser reads it.
use clerq.Prelude.{
  ℕ, Text, codes, text_eq, ◌==◌, ◌≡◌, refl, ap, ◌∙◌, ◌≢◌, Option, none, some, [], ◌∷◌, ◌++◌,
  append_assoc, All, All-append, map_get, then_get, arith, if◌then◌else◌,
}
use clerq.Export.{replace_char, escape_html}

-- the five character references that the escape writes
abbrev entity : Text → Option ℕ
entity name =
    if text_eq name (codes "amp")
    then some b'&'
    else if text_eq name (codes "lt")
    then some b'<'
    else if text_eq name (codes "gt")
    then some b'>'
    else if text_eq name (codes "quot")
    then some b'"'
    else if text_eq name (codes "#39")
    then some b'\''
    else none

-- The characters of text in HTML: a reference runs from an ampersand to a semicolon.
unfoldable pub html_text : Option Text → Text → Option Text
html_text none [] = some []
html_text (some name) [] = none
html_text none (c ∷ s) =
    let reference = html_text (some []) s in
    let plain = map_get (html_text none s) (λ u. c ∷ u) in if c == b'&' then reference else plain
html_text (some name) (c ∷ s) =
    let more = html_text (some (name ++ c ∷ [])) s in
    let closed = then_get (entity name) (λ d. map_get (html_text none s) (λ u. d ∷ u)) in
    if c == b';' then closed else more

replace_char-append :
    (c : ℕ) (text s t : Text)
    → replace_char c text (s ++ t) ≡ replace_char c text s ++ replace_char c text t
unfolding replace_char
replace_char-append c text [] t = refl
replace_char-append c text (d ∷ s) t = ground (
  arith,
  replace_char-append c text s t,
  append_assoc text (replace_char c text s) (replace_char c text t),
)

escape_html-append : (s t : Text) → escape_html (s ++ t) ≡ escape_html s ++ escape_html t
unfolding escape_html
escape_html-append s t = simp replace_char-append

-- A character that markup or an attribute's value would end at.
abbrev pub IsInert : ℕ → Type 0
IsInert c = (c ≢ b'<') × (c ≢ b'>') × (c ≢ b'"') × (c ≢ b'\'')

html_text-escape_one :
    (c : ℕ) (t : Text)
    → html_text none (escape_html (c ∷ []) ++ t) ≡ map_get (html_text none t) (λ u. c ∷ u)
unfolding html_text escape_html text_eq
html_text-escape_one c t = ground arith

escape_one-IsInert : (c : ℕ) → All IsInert (escape_html (c ∷ []))
unfolding escape_html
escape_one-IsInert c = ground arith

escape_html-cons : (c : ℕ) (s : Text) → escape_html (c ∷ s) ≡ escape_html (c ∷ []) ++ escape_html s
escape_html-cons c s = escape_html-append (c ∷ []) s

-- An HTML parser that reads escaped text gets the text back.
pub html_text-escape_html : (s : Text) → html_text none (escape_html s) ≡ some s
html_text-escape_html [] = unfold html_text escape_html in refl
html_text-escape_html (c ∷ s) = rw escape_html-cons (
    html_text-escape_one c (escape_html s)
    ∙ ap (λ o. map_get o (λ u. c ∷ u)) (html_text-escape_html s))

-- Escaped text holds no angle bracket and no quote, so it opens no tag and ends no attribute value;
-- and an HTML parser that reads it gets the text back.
pub escape_html_lem :
    (s : Text) → All IsInert (escape_html s) × (html_text none (escape_html s) ≡ some s)
escape_html_lem s = (inert s, html_text-escape_html s)
  where
    inert : (u : Text) → All IsInert (escape_html u)
    inert [] = unfold escape_html in tt
    inert (c ∷ u) = rw escape_html-cons (All-append IsInert _ _ (escape_one-IsInert c) (inert u))
