-- ===== src/Export/CsvRead.antt =====
-- The exported CSV text read back.
use clerq.Prelude.{
  ℕ, String, Text, join, ◌==◌, ==_iff, ◌||◌, ◌≡◌, refl, sym, ap, ◌∙◌, ◌≢◌, Bool, true, false,
  Option, some, List, [], ◌∷◌, ◌++◌, map, All, append-nil, append_assoc, some_of, arith, Bool-cases,
  inl, inr,
}
use clerq.Types.{ValidationRuleResult, ValidationOutput, Run}
use clerq.Report.{Annotations, annotations_of, results_of}
use clerq.Export.{
  quote, comma, cr, lf, crlf, is_special, double_quotes, csv_escape, csv_line, csv_text, csv_header,
  csv_row, report_rows, export_csv,
}
use clerq.Export.Reader.{Mode, plain, quoted, closing, Reader, fresh, feed, feed_all, read_csv}

or-eq-false : (a b : Bool) → (a || b) ≡ false → (a ≡ false) × (b ≡ false)
or-eq-false false b h = (refl, h)
or-eq-false true b h = cc

abbrev reading : Mode → Text → List Text → List (List Text) → Reader
reading mode cell row rows = record { mode = mode; cell = cell; row = row; rows = rows }

module _ (row : List Text) (rows : List (List Text)) where
  feed-quoted :
      (c : ℕ) (cell : Text)
      → (c == quote) ≡ false
      → feed c (reading quoted cell row rows) ≡ some (reading quoted (cell ++ c ∷ []) row rows)
  unfolding feed
  feed-quoted c cell h = ground arith

  feed_all-quote_pair :
      (cell s : Text)
      → feed_all (quote ∷ quote ∷ s) (reading quoted cell row rows)
        ≡ feed_all s (reading quoted (cell ++ quote ∷ []) row rows)
  unfolding feed_all feed
  feed_all-quote_pair cell s = refl

  feed-plain :
      (c : ℕ) (cell : Text)
      → is_special c ≡ false
      → feed c (reading plain cell row rows) ≡ some (reading plain (cell ++ c ∷ []) row rows)
  unfolding feed
  feed-plain c cell h = ground arith

  feed-start :
      (c : ℕ)
      → is_special c ≡ false
      → feed c (fresh row rows) ≡ some (reading plain (c ∷ []) row rows)
  unfolding feed
  feed-start c h = ground arith

  extend_by :
      (mode : Mode) (cell : Text) (c : ℕ) (s t : Text)
      → feed_all t (reading mode ((cell ++ c ∷ []) ++ s) row rows)
        ≡ feed_all t (reading mode (cell ++ c ∷ s) row rows)
  extend_by mode cell c s t =
      ap (λ u. feed_all t (reading mode u row rows)) (append_assoc cell (c ∷ []) s)

  -- inside quotes
  feed_all-double_quotes :
      (cell s t : Text)
      → feed_all (double_quotes s ++ t) (reading quoted cell row rows)
        ≡ feed_all t (reading quoted (cell ++ s) row rows)
  unfolding feed_all double_quotes
  feed_all-double_quotes cell [] t = rw append-nil
  feed_all-double_quotes cell (c ∷ s) t = elim (Bool-cases (c == quote)) [
    | inl e ↦
        let same : c ≡ quote = (==_iff c quote).0 e in
        rw (e, same)
          (feed_all-quote_pair cell (double_quotes s ++ t)
            ∙ feed_all-double_quotes (cell ++ quote ∷ []) s t
            ∙ extend_by quoted cell quote s t)
    | inr e ↦
        rw (e, feed-quoted c cell e)
          (feed_all-double_quotes (cell ++ c ∷ []) s t ∙ extend_by quoted cell c s t)
  ]

  feed_all-plain :
      (cell s t : Text)
      → some_of is_special s ≡ false
      → feed_all (s ++ t) (reading plain cell row rows)
        ≡ feed_all t (reading plain (cell ++ s) row rows)
  unfolding feed_all
  feed_all-plain cell [] t h = rw append-nil
  feed_all-plain cell (c ∷ s) t h =
      let (here, later) = or-eq-false (is_special c) (some_of is_special s) h in
      rw (feed-plain c cell here)
        (feed_all-plain (cell ++ c ∷ []) s t later ∙ extend_by plain cell c s t)

  open_quote :
      (t : Text) → feed_all (quote ∷ t) (fresh row rows) ≡ feed_all t (reading quoted [] row rows)
  unfolding feed_all feed
  open_quote t = refl

  close_quote :
      (s t : Text)
      → feed_all (quote ∷ t) (reading quoted s row rows) ≡ feed_all t (reading closing s row rows)
  unfolding feed_all feed
  close_quote s t = refl

  -- A cell is read whole, if what follows goes on alike behind a quoted and an unquoted cell.
  feed_all-csv_escape :
      (s t : Text) (out : Option Reader)
      → feed_all t (reading closing s row rows) ≡ out
      → feed_all t (reading plain s row rows) ≡ out
      → (s ≡ [] → feed_all t (fresh row rows) ≡ out)
      → feed_all (csv_escape s ++ t) (fresh row rows) ≡ out
  unfolding csv_escape feed_all
  feed_all-csv_escape s t out h k l = elim (Bool-cases (some_of is_special s)) [
    | inl e ↦
        rw (e, append_assoc)
          (open_quote (double_quotes s ++ quote ∷ t)
            ∙ feed_all-double_quotes [] s (quote ∷ t)
            ∙ close_quote s t
            ∙ h)
    | inr e ↦ rw e (bare s e k l)
  ]
    where
      bare :
          (u : Text)
          → some_of is_special u ≡ false
          → feed_all t (reading plain u row rows) ≡ out
          → (u ≡ [] → feed_all t (fresh row rows) ≡ out)
          → feed_all (u ++ t) (fresh row rows) ≡ out
      bare [] e k l = l refl
      bare (c ∷ u) e k l =
          let (here, later) = or-eq-false (is_special c) (some_of is_special u) e in
          rw (feed-start c here) (feed_all-plain (c ∷ []) u t later ∙ k)

module _ (rows : List (List Text)) where
  feed_all-cell_comma :
      (row : List Text) (s t : Text)
      → feed_all (csv_escape s ++ comma ∷ t) (fresh row rows)
        ≡ feed_all t (fresh (row ++ s ∷ []) rows)
  unfolding feed_all feed
  feed_all-cell_comma row s t =
      feed_all-csv_escape row rows s (comma ∷ t) _ refl refl
        (λ e. ap (λ u. feed_all t (fresh (row ++ u ∷ []) rows)) (sym e))

  feed_all-cell_crlf :
      (row : List Text) (s t : Text)
      → feed_all (csv_escape s ++ cr ∷ lf ∷ t) (fresh row rows)
        ≡ feed_all t (fresh [] (rows ++ (row ++ s ∷ []) ∷ []))
  unfolding feed_all feed
  feed_all-cell_crlf row s t =
      feed_all-csv_escape row rows s (cr ∷ lf ∷ t) _ refl refl
        (λ e. ap (λ u. feed_all t (fresh [] (rows ++ (row ++ u ∷ []) ∷ []))) (sym e))

  feed_all-csv_line :
      (row : List Text) (s : Text) (cells : List Text) (t : Text)
      → feed_all (csv_line (s ∷ cells) ++ cr ∷ lf ∷ t) (fresh row rows)
        ≡ feed_all t (fresh [] (rows ++ (row ++ s ∷ cells) ∷ []))
  unfolding csv_line
  feed_all-csv_line row s [] t = feed_all-cell_crlf row s t
  feed_all-csv_line row s (u ∷ cells) t = rw append_assoc (
      feed_all-cell_comma row s (csv_line (u ∷ cells) ++ cr ∷ lf ∷ t)
      ∙ feed_all-csv_line (row ++ s ∷ []) u cells t
      ∙ ap (λ l. feed_all t (fresh [] (rows ++ l ∷ []))) (append_assoc row (s ∷ []) (u ∷ cells)))

abbrev pub IsRow : List Text → Type 0
IsRow row = row ≢ []

feed_all-rows :
    (before : List (List Text)) (row : List Text) (rows : List (List Text))
    → IsRow row
    → All IsRow rows
    → feed_all (join crlf (map csv_line (row ∷ rows)) ++ crlf) (fresh [] before)
      ≡ some (fresh [] (before ++ row ∷ rows))
unfolding feed_all
feed_all-rows before [] rows h hs = absurd (h refl)
feed_all-rows before (s ∷ cells) [] h hs = feed_all-csv_line before [] s cells []
feed_all-rows before (s ∷ cells) (row ∷ rows) h (h', hs) = rw append_assoc (
    feed_all-csv_line before [] s cells (join crlf (map csv_line (row ∷ rows)) ++ crlf)
    ∙ feed_all-rows (before ++ (s ∷ cells) ∷ []) row rows h' hs
    ∙ ap (λ r. some (fresh [] r)) (append_assoc before ((s ∷ cells) ∷ []) (row ∷ rows)))

-- A file of rows that have cells is read back as those rows.
pub read_csv-csv_text :
    (row : List Text) (rows : List (List Text))
    → IsRow row
    → All IsRow rows
    → read_csv (csv_text (row ∷ rows)) ≡ some (row ∷ rows)
unfolding read_csv csv_text
read_csv-csv_text row rows h hs = rw (feed_all-rows [] row rows h hs)

module _ (t : String → Text) where
  IsRow-csv_row :
      (anns : Annotations) (results : List ValidationRuleResult)
      → All IsRow (map (csv_row t anns) results)
  unfolding csv_row
  IsRow-csv_row anns [] = tt
  IsRow-csv_row anns (r ∷ rs) = (λ e. cc, IsRow-csv_row anns rs)

  -- Whatever the texts of a report and its translations hold, quotes, commas and line ends
  -- included, the exported CSV file reads back as the header and one row for each finding.
  pub read_csv-export_csv :
      (run : Run) (output : Option ValidationOutput)
      → read_csv (export_csv t run output) ≡ some (report_rows t run.review output)
  unfolding export_csv report_rows csv_header
  read_csv-export_csv run output =
      read_csv-csv_text (csv_header t) _ (λ e. cc)
        (IsRow-csv_row (annotations_of run.review) (results_of output))
