-- ===== src/Export/Filename.antt =====
-- The names of the exported files.
use mathlib.Core.List.{reverse, reverse-cons, reverse-append}
use clerq.Prelude.{
  ℕ, ◌≤◌, Text, ◌==◌, ◌≡◌, refl, ◌≢◌, Bool, true, false, [], ◌∷◌, ◌++◌, All, All-append, All-take,
  length, length-take_le, take, trim_start, trim_by, arith, Bool-cases, inl, inr, Option, zero, suc,
}
use clerq.Types.{Run, ValidationOutput}
use clerq.Export.{is_plain, collapse, or_report, safe_filename, raw_filename, base_filename}

abbrev pub IsPlain : ℕ → Type 0
IsPlain c = is_plain c ≡ true

collapse-IsPlain : (b : Bool) (s : Text) → All IsPlain (collapse b s)
unfolding collapse
collapse-IsPlain b [] = tt
collapse-IsPlain b (c ∷ s) = ground (arith, collapse-IsPlain false s, collapse-IsPlain true s)

module _ (P : ℕ → Type 0) (space : ℕ → Bool) where
  All-reverse : (s : Text) → All P s → All P (reverse s)
  All-reverse [] h = tt
  All-reverse (c ∷ s) (h, hs) =
      rw reverse-cons (All-append P (reverse s) (c ∷ []) (All-reverse s hs) (h, tt))

  All-trim_start : (s : Text) → All P s → All P (trim_start space s)
  unfolding trim_start
  All-trim_start [] h = tt
  All-trim_start (c ∷ s) (h, hs) = elim (Bool-cases (space c)) [
    | inl e ↦ rw e (All-trim_start s hs)
    | inr e ↦ rw e (h, hs)
  ]

  All-trim_by : (s : Text) → All P s → All P (trim_by space s)
  unfolding trim_by
  All-trim_by s h = All-reverse _ (All-trim_start _ (All-reverse _ (All-trim_start s h)))

-- The text does not begin with an underscore.
abbrev pub IsOpen : Text → Type 0
IsOpen [] = Unit
IsOpen (c ∷ s) = c ≢ b'_'

module _ (space : ℕ → Bool) where
  trim_start-snoc :
      (s : Text) (c : ℕ)
      → space c ≡ false
      → trim_start space (s ++ c ∷ []) ≡ trim_start space s ++ c ∷ []
  unfolding trim_start
  trim_start-snoc [] c h = rw h
  trim_start-snoc (d ∷ s) c h = ground (arith, trim_start-snoc s c h)

  -- trimming the end keeps a first character that is no space
  trim_end-cons :
      (c : ℕ) (s : Text)
      → space c ≡ false
      → reverse (trim_start space (reverse (c ∷ s))) ≡ c ∷ reverse (trim_start space (reverse s))
  trim_end-cons c s h = rw (reverse-cons, trim_start-snoc (reverse s) c h, reverse-append)

abbrev is_underscore : ℕ → Bool
is_underscore c = c == b'_'

IsOpen-trim_end : (s : Text) → IsOpen s → IsOpen (reverse (trim_start is_underscore (reverse s)))
IsOpen-trim_end [] h = unfold trim_start in tt
IsOpen-trim_end (c ∷ s) h = rw (trim_end-cons is_underscore c s (ground arith)) h

IsOpen-trim_start : (s : Text) → IsOpen (trim_start is_underscore s)
unfolding trim_start
IsOpen-trim_start [] = tt
IsOpen-trim_start (c ∷ s) = elim (Bool-cases (is_underscore c)) [
  | inl e ↦ rw e (IsOpen-trim_start s)
  | inr e ↦ rw e (ground arith)
]

IsOpen-take : (n : ℕ) (s : Text) → IsOpen s → IsOpen (take n s)
IsOpen-take zero s h = tt
IsOpen-take (suc n) [] h = tt
IsOpen-take (suc n) (c ∷ s) h = h

-- what a file name needs
pub record IsFilename (s : Text) : Type 0 where
  pub non_empty : s ≢ []
  pub bounded : length s ≤ 80
  pub plain : All IsPlain s
  pub no_leading_underscore : IsOpen s

IsFilename-or_report :
    (s : Text) → length s ≤ 80 → All IsPlain s → IsOpen s → IsFilename (or_report s)
IsFilename-or_report [] h k l = record {
  non_empty = λ e. cc;
  bounded = omega arith;
  plain = (refl, (refl, (refl, (refl, (refl, (refl, tt))))));
  no_leading_underscore = ground arith;
}
IsFilename-or_report (c ∷ s) h k l = record {
  non_empty = λ e. cc;
  bounded = h;
  plain = k;
  no_leading_underscore = l;
}

safe_filename-IsFilename : (s : Text) → IsFilename (safe_filename s)
unfolding safe_filename
safe_filename-IsFilename s =
    let word = collapse false s in
    let core = trim_by is_underscore word in
    let open_core : IsOpen core =
      unfold trim_by in IsOpen-trim_end (trim_start is_underscore word) (IsOpen-trim_start word) in
    IsFilename-or_report (take 80 core) (length-take_le 80 core)
      (All-take IsPlain 80 core (All-trim_by IsPlain is_underscore word (collapse-IsPlain false s)))
      (IsOpen-take 80 core open_core)

-- A file name is made of letters, digits, dots, dashes and underscores, has from 1 to 80
-- characters, and does not begin with an underscore, whatever the run and its policy are called.
pub base_filename-IsFilename :
    (run : Run) (output : Option ValidationOutput) → IsFilename (base_filename run output)
unfolding base_filename
base_filename-IsFilename run output = safe_filename-IsFilename (raw_filename run output)
