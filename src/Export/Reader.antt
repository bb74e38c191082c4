-- ===== src/Export/Reader.antt =====
-- A reader of CSV files as RFC 4180 describes them, strict about quotes and line ends: what a
-- spreadsheet makes of an exported report.
use clerq.Prelude.{ℕ, Text, ◌==◌, Option, none, some, List, [], ◌∷◌, ◌++◌, then_get, if◌then◌else◌}
use clerq.Export.{quote, comma, cr, lf}

pub data Mode : Type 0 where
  start plain quoted closing ended : Mode

pub record Reader : Type 0 where
  pub mode : Mode
  pub cell : Text
  pub row : List Text
  pub rows : List (List Text)

abbrev pub fresh : List Text → List (List Text) → Reader
fresh row rows = record { mode = start; cell = []; row = row; rows = rows }

abbrev pub push_cell : Reader → Reader
push_cell r = fresh (r.row ++ r.cell ∷ []) r.rows

abbrev extend : Mode → ℕ → Reader → Reader
extend m c r = record r { mode = m; cell = r.cell ++ c ∷ [] }

-- behind a cell: the next cell or the line's end
abbrev close : ℕ → Reader → Option Reader → Option Reader
close c r other =
    if c == comma
    then some (push_cell r)
    else if c == cr
    then some (record r { mode = ended })
    else other

abbrev unquoted : ℕ → Reader → Option Reader
unquoted c r =
    close c r (if c == lf then none else if c == quote then none else some (extend plain c r))

abbrev feed_in : Mode → ℕ → Reader → Option Reader
feed_in start c r = if c == quote then some (record r { mode = quoted }) else unquoted c r
feed_in plain c r = unquoted c r
feed_in quoted c r =
    if c == quote then some (record r { mode = closing }) else some (extend quoted c r)
feed_in closing c r = if c == quote then some (extend quoted c r) else close c r none
feed_in ended c r =
    if c == lf then some (fresh [] (r.rows ++ (r.row ++ r.cell ∷ []) ∷ [])) else none

unfoldable pub feed : ℕ → Reader → Option Reader
feed c r = feed_in r.mode c r

unfoldable pub feed_all : Text → Reader → Option Reader
feed_all [] r = some r
feed_all (c ∷ s) r = then_get (feed c r) (feed_all s)

-- at the end of the file no line is open
abbrev finish : Reader → Option (List (List Text))
finish (r) = elim r.mode [ start ↦ (elim r.row [ [] ↦ some r.rows | _ ∷ _ ↦ none ]) | _ ↦ none ]

unfoldable pub read_lines : Text → Option (List (List Text))
unfolding feed_all feed
read_lines s = then_get (feed_all s (fresh [] [])) finish

-- A leading byte-order mark is no part of the first cell.
unfoldable pub read_csv : Text → Option (List (List Text))
unfolding read_lines
read_csv [] = read_lines []
read_csv (c ∷ s) = if c == 65279 then read_lines s else read_lines (c ∷ s)
