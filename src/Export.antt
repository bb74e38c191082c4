-- ===== src/Export.antt =====
-- frontend/src/lib/reportExport.ts: the CSV, HTML and file-name parts of the report's export. The
-- download itself and the JSON export's `JSON.stringify` are not modelled.
pub mod Reader
pub mod CsvRead
pub mod Html
pub mod Filename
mod Examples
use clerq.Prelude.{
  ℕ, zero, suc, ◌+◌, ◌/◌, ◌%◌, ltb, leb, ◌==◌, String, str_eq, Text, codes, join, Bool, true, false,
  ◌&&◌, ◌||◌, trim_by, take, Option, none, some, List, [], ◌∷◌, ◌++◌, map, some_of, lookup, get_or,
  then_get, map_get, if◌then◌else◌,
}
use clerq.Types
use clerq.Types.{
  Verdict, uncertain, not_applicable, FindingAnnotation, Run, ReportReview, ValidationOutput,
  ValidationRuleResult, PerDocumentResult, Extracted,
}
use clerq.Report.{Annotations, effective_status, annotations_of, results_of}

abbrev pub quote : ℕ
quote = b'"'

abbrev pub comma : ℕ
comma = b','

abbrev pub cr : ℕ
cr = 13

abbrev pub lf : ℕ
lf = 10

abbrev pub crlf : Text
crlf = cr ∷ lf ∷ []

-- what makes a cell quoted
abbrev pub is_special : ℕ → Bool
is_special c = c == quote || c == comma || c == lf || c == cr

-- `s.replace(/"/g, '""')`
unfoldable pub double_quotes : Text → Text
double_quotes [] = []
double_quotes (c ∷ s) =
    let rest = double_quotes s in if c == quote then quote ∷ quote ∷ rest else c ∷ rest

-- `csvEscape`, on the cell's text
unfoldable pub csv_escape : Text → Text
unfolding double_quotes
csv_escape s = if some_of is_special s then quote ∷ (double_quotes s ++ quote ∷ []) else s

-- `row.map(csvEscape).join(',')`
unfoldable pub csv_line : List Text → Text
unfolding csv_escape
csv_line cells = join (comma ∷ []) (map csv_escape cells)

-- the text of a whole CSV file: a byte-order mark, then the lines, each ended by CRLF
unfoldable pub csv_text : List (List Text) → Text
unfolding csv_line
csv_text rows = 65279 ∷ (join crlf (map csv_line rows) ++ crlf)

-- `s.replace(/c/g, text)` for one character `c`
unfoldable pub replace_char : ℕ → Text → Text → Text
replace_char c text [] = []
replace_char c text (d ∷ s) =
    let rest = replace_char c text s in if d == c then text ++ rest else d ∷ rest

-- `escapeHtml`: the replacements, the ampersand's first
unfoldable pub escape_html : Text → Text
unfolding replace_char
escape_html s = replace_char b'\'' (codes "&#39;") (
    replace_char b'"' (codes "&quot;") (
      replace_char b'>' (codes "&gt;")
        (replace_char b'<' (codes "&lt;") (replace_char b'&' (codes "&amp;") s))))

-- a character of `[a-zA-Z0-9._-]`
abbrev pub is_plain : ℕ → Bool
is_plain c =
    (leb b'a' c && leb c b'z')
    || (leb b'A' c && leb c b'Z')
    || (leb b'0' c && leb c b'9')
    || c == b'.'
    || c == b'_'
    || c == b'-'

-- `s.replace(/[^a-zA-Z0-9._-]+/g, '_')`: each run of other characters becomes one underscore. The
-- flag says that such a run is open.
unfoldable pub collapse : Bool → Text → Text
collapse open_run [] = []
collapse open_run (c ∷ s) =
    let kept = c ∷ collapse false s in
    let same_run = collapse true s in
    if is_plain c then kept else if open_run then same_run else b'_' ∷ same_run

-- `t || 'report'`
abbrev or_report : Text → Text
or_report [] = codes "report"
or_report (c ∷ s) = c ∷ s

-- `safeFilename`
unfoldable pub safe_filename : Text → Text
unfolding collapse trim_by
safe_filename s = or_report (take 80 (trim_by (λ c. c == b'_') (collapse false s)))

-- `String(n)`
decimal_fuel : ℕ → ℕ → Text
decimal_fuel zero n = []
decimal_fuel (suc k) n =
    let rest = decimal_fuel k (n / 10) ++ (48 + n % 10) ∷ [] in
    if ltb n 10 then (48 + n) ∷ [] else rest

unfoldable pub decimal : ℕ → Text
unfolding decimal_fuel
decimal n = decimal_fuel (suc n) n

-- `Math.round(c * 100)` of a confidence in ten-thousandths
abbrev pub percent : ℕ → ℕ
percent c = (c + 50) / 100

abbrev or_undated : Text → Text
or_undated [] = codes "undated"
or_undated (c ∷ s) = c ∷ s

abbrev policy_part : Option Text → Text
policy_part none = []
policy_part (some []) = []
policy_part (some (c ∷ s)) = b'-' ∷ c ∷ s

-- the name that `baseFilename` makes safe
abbrev raw_filename : Run → Option ValidationOutput → Text
raw_filename run output =
    let name = get_or run.name (codes "case-" ++ decimal run.id) in
    let date = or_undated (take 10 run.created_at) in
    date ++ (b'-' ∷ (name ++ policy_part (then_get output (λ o. o.policy_name))))

-- `baseFilename`
unfoldable pub base_filename : Run → Option ValidationOutput → Text
unfolding safe_filename decimal
base_filename run output = safe_filename (raw_filename run output)

module _ (t : String → Text) where
  -- `statusLabel`
  unfoldable pub status_label : Verdict → Text
  status_label Verdict.pass = t "verdict.pass"
  status_label Verdict.fail = t "verdict.fail"
  status_label uncertain = t "verdict.needs_review"
  status_label not_applicable = t "verdict.not_applicable"
  status_label (Verdict.other s) = codes s

  unfoldable pub csv_header : List Text
  csv_header =
      t "report.csv.rule_name"
      ∷ t "report.csv.scope"
      ∷ t "report.csv.requirement"
      ∷ t "report.csv.ai_status"
      ∷ t "report.csv.effective_status"
      ∷ t "report.csv.confidence_pct"
      ∷ t "report.csv.evidence"
      ∷ t "report.csv.reviewer_note"
      ∷ t "report.csv.reviewer_override_reason"
      ∷ t "report.csv.documents"
      ∷ t "report.csv.extracted"
      ∷ []

  abbrev extracted_cell : Option Extracted → Text
  extracted_cell none = []
  extracted_cell (some e) = elim e.keys [ [] ↦ [] | _ ∷ _ ↦ e.json ]

  -- the cells of one finding
  unfoldable pub csv_row : Annotations → ValidationRuleResult → List Text
  unfolding status_label decimal
  csv_row annotations r =
      let ann = lookup r.rule_name annotations in
      let documents =
        map (λ (p : PerDocumentResult). p.document_filename) (get_or r.per_document []) in
      codes r.rule_name
      ∷ codes (get_or r.scope "per_document")
      ∷ (if str_eq r.requirement "optional" then t "common.optional" else t "common.required")
      ∷ status_label r.status
      ∷ status_label (effective_status r ann)
      ∷ decimal (percent (get_or r.confidence 0))
      ∷ get_or r.evidence []
      ∷ get_or (then_get ann (λ a. a.note)) []
      ∷ get_or (map_get (then_get ann (λ a. a.override)) (λ o. o.reason)) []
      ∷ join (codes "; ") documents
      ∷ extracted_cell r.extracted
      ∷ []

  -- the rows of `exportReportCSV`
  unfoldable pub report_rows : Option ReportReview → Option ValidationOutput → List (List Text)
  unfolding csv_header csv_row
  report_rows review output = csv_header ∷ map (csv_row (annotations_of review)) (results_of output)

  -- the text that `exportReportCSV` downloads
  unfoldable pub export_csv : Run → Option ValidationOutput → Text
  unfolding csv_text
  export_csv run output = csv_text (report_rows run.review output)
