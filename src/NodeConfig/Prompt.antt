-- ===== src/NodeConfig/Prompt.antt =====
-- frontend/src/components/NodeConfigPanel.tsx, `PromptEditor`: variables and formats are put into a
-- text at its selection. Texts are code points, and positions count them.
use clerq.Prelude.{
  ap₂, subst, All, All-append, Bool-cases, inl, inr, false, ℕ, ◌+◌, ◌≤◌, ◌==◌, ◌≡◌, refl, sym, ap,
  ◌∙◌, String, Text, codes, join, is_empty, Option, none, some, List, [], ◌∷◌, ◌++◌, append_assoc,
  map, take, drop, length, length-append, length-take, take-append, drop-append, arith,
  if◌then◌else◌,
}

-- `selectionStart` and `selectionEnd` of the text area
pub record Selection : Type 0 where
  pub start : ℕ
  pub end : ℕ

-- the text and, where the text area is there, its selection
pub record Prompt : Type 0 where
  pub value : Text
  pub area : Option Selection

-- `value.slice(0, s) + text + value.slice(e2)`, with the cursor set behind the text
abbrev pub splice : Text → Selection → Text → Prompt
splice value sel text = record {
  value = take sel.start value ++ (text ++ drop sel.end value);
  area = some (record { start = sel.start + length text; end = sel.start + length text });
}

-- `insertAt`
unfoldable pub insert_at : Text → Prompt → Prompt
insert_at text p = elim p.area [
  | none ↦ record p { value = p.value ++ text }
  | some sel ↦ splice p.value sel text
]

pub data Format : Type 0 where
  bold italic bullet quote : Format

-- `s.split('\n')`
unfoldable pub lines : Text → List Text
lines [] = [] ∷ []
lines (c ∷ s) = elim (lines s) [
  | [] ↦ (c ∷ []) ∷ []
  | l ∷ ls ↦ if c == b'\n' then [] ∷ l ∷ ls else (c ∷ l) ∷ ls
]

abbrev pub or_text : Text → Text → Text
or_text s d = if is_empty s then d else s

-- `split('\n').map(l => prefix + l).join('\n')`
unfoldable pub prefixed : Text → Text → Text
unfolding lines
prefixed prefix s = join (codes "\n") (map (λ l. prefix ++ l) (lines s))

-- what a selected text becomes; `t` gives the words that stand in for an empty selection
unfoldable pub wrapped : (String → Text) → Format → Text → Text
unfolding prefixed
wrapped t bold s = codes "**" ++ (or_text s (t "nodeconfig.fmt.bold") ++ codes "**")
wrapped t italic s = codes "*" ++ (or_text s (t "nodeconfig.fmt.italic") ++ codes "*")
wrapped t bullet s = prefixed (codes "- ") (or_text s (t "nodeconfig.fmt.item"))
wrapped t quote s = prefixed (codes "> ") (or_text s (t "nodeconfig.fmt.quote"))

abbrev slice : ℕ → ℕ → Text → Text
slice a b s = drop a (take b s)

-- `applyFmt`
unfoldable pub apply_fmt : (String → Text) → Format → Prompt → Prompt
unfolding wrapped
apply_fmt t f p = elim p.area [
  | none ↦ p
  | some sel ↦ splice p.value sel (wrapped t f (slice sel.start sel.end p.value))
]

module _ (value text : Text) (sel : Selection) (h : sel.start ≤ length value) where
  before_length : length (take sel.start value ++ text) ≡ sel.start + length text
  before_length =
      omega (arith, length-append (take sel.start value) text, length-take sel.start value h)

  splice-value :
      (splice value sel text).value ≡ (take sel.start value ++ text) ++ drop sel.end value
  splice-value = sym (append_assoc (take sel.start value) text (drop sel.end value))

  take-splice :
      take (sel.start + length text) (splice value sel text).value ≡ take sel.start value ++ text
  take-splice = rw⁻¹ before_length (
      ap (take (length (take sel.start value ++ text))) splice-value
      ∙ take-append (take sel.start value ++ text) (drop sel.end value))

  drop-splice : drop (sel.start + length text) (splice value sel text).value ≡ drop sel.end value
  drop-splice = rw⁻¹ before_length (
      ap (drop (length (take sel.start value ++ text))) splice-value
      ∙ drop-append (take sel.start value ++ text) (drop sel.end value))

abbrev pub selected : Text → Selection → Prompt
selected value sel = record { value = value; area = some sel }

-- Variables put in one after the other stand in that order at the place of the selection: the cursor
-- is left behind what was put in, and what stood outside the selection is kept.
insert_at-append :
    (value a b : Text) (sel : Selection)
    → sel.start ≤ length value
    → insert_at b (insert_at a (selected value sel)) ≡ insert_at (a ++ b) (selected value sel)
unfolding insert_at
insert_at-append value a b sel h =
    let pre = take sel.start value in
    let ends = length-append a b in
    let n : (sel.start + length a) + length b ≡ sel.start + length (a ++ b) = omega (arith, ends) in
    let text =
      ap (λ u. u ++ (b ++ drop (sel.start + length a) (splice value sel a).value))
        (take-splice value a sel h)
      ∙ ap (λ u. (pre ++ a) ++ (b ++ u)) (drop-splice value a sel h)
      ∙ append_assoc pre a (b ++ drop sel.end value)
      ∙ ap (λ u. pre ++ u) (sym (append_assoc a b (drop sel.end value))) in
    ap₂ (λ v k. record { value = v; area = some (record { start = k; end = k }) }) text n

-- `applyFmt`
pub apply_fmt-outside :
    (t : String → Text) (f : Format) (value : Text) (sel : Selection)
    → sel.start ≤ length value
    → let text = wrapped t f (slice sel.start sel.end value) in
      let r = (apply_fmt t f (selected value sel)).value in
      (take (sel.start + length text) r ≡ take sel.start value ++ text)
      × (drop (sel.start + length text) r ≡ drop sel.end value)
unfolding apply_fmt
apply_fmt-outside t f value sel h =
    let text = wrapped t f (slice sel.start sel.end value) in
    (take-splice value text sel h, drop-splice value text sel h)

abbrev IsLine : Text → Type 0
IsLine = All (λ c. (c == b'\n') ≡ false)

-- `lines` is never empty.
lines-cons : (s : Text) → (l : Text) × (ls : List Text) × (lines s ≡ l ∷ ls)
unfolding lines
lines-cons [] = ([], [], refl)
lines-cons (c ∷ s) =
    let (l, ls, e) = lines-cons s in
    elim (Bool-cases (c == b'\n')) [
      | inl break ↦ ([], l ∷ ls, rw (e, break) refl)
      | inr other ↦ (c ∷ l, ls, rw (e, other) refl)
    ]

lines-IsLine : (s : Text) → All IsLine (lines s)
unfolding lines
lines-IsLine [] = (tt, tt)
lines-IsLine (c ∷ s) =
    let (l, ls, e) = lines-cons s in
    let rest : All IsLine (l ∷ ls) = subst (All IsLine) e (lines-IsLine s) in
    elim (Bool-cases (c == b'\n')) [
      | inl break ↦ rw (e, break) (tt, rest)
      | inr other ↦ rw (e, other) ((other, rest.0), rest.1)
    ]

lines-one : (l : Text) → IsLine l → lines l ≡ l ∷ []
unfolding lines
lines-one [] h = refl
lines-one (c ∷ l) (p, h) = rw (lines-one l h, p) refl

lines-break : (l s : Text) → IsLine l → lines (l ++ b'\n' ∷ s) ≡ l ∷ lines s
unfolding lines
lines-break [] s h = let (l, ls, e) = lines-cons s in rw e refl
lines-break (c ∷ l) s (p, h) = rw (lines-break l s h, p) refl

lines-join :
    (l : Text) (ls : List Text)
    → IsLine l
    → All IsLine ls
    → lines (join (codes "\n") (l ∷ ls)) ≡ l ∷ ls
lines-join l [] p h = lines-one l p
lines-join l (k ∷ ls) p (q, h) =
    lines-break l (join (codes "\n") (k ∷ ls)) p ∙ ap (λ ks. l ∷ ks) (lines-join k ls q h)

All-map_prefix :
    (prefix : Text) (ls : List Text)
    → IsLine prefix
    → All IsLine ls
    → All IsLine (map (λ l. prefix ++ l) ls)
All-map_prefix prefix [] p h = tt
All-map_prefix prefix (l ∷ ls) p (q, h) =
    (All-append (λ c. (c == b'\n') ≡ false) prefix l p q, All-map_prefix prefix ls p h)

lines-prefixed :
    (prefix s : Text) → IsLine prefix → lines (prefixed prefix s) ≡ map (λ l. prefix ++ l) (lines s)
unfolding prefixed
lines-prefixed prefix s p =
    let (l, ls, e) = lines-cons s in
    let all : All IsLine (l ∷ ls) = subst (All IsLine) e (lines-IsLine s) in
    let (q, h) = All-map_prefix prefix (l ∷ ls) p all in
    rw e (lines-join (prefix ++ l) (map (λ k. prefix ++ k) ls) q h)

-- A bullet or a quote mark is put before each line of the selection (or of the word that stands in
-- for an empty one), and the lines stay as many.
lines-wrapped :
    (t : String → Text) (s : Text)
    → (lines (wrapped t bullet s)
        ≡ map (λ l. codes "- " ++ l) (lines (or_text s (t "nodeconfig.fmt.item"))))
      × (lines (wrapped t quote s)
          ≡ map (λ l. codes "> " ++ l) (lines (or_text s (t "nodeconfig.fmt.quote"))))
unfolding wrapped
lines-wrapped t s = (
  lines-prefixed (codes "- ") (or_text s (t "nodeconfig.fmt.item")) (refl, (refl, tt)),
  lines-prefixed (codes "> ") (or_text s (t "nodeconfig.fmt.quote")) (refl, (refl, tt)),
)
