-- ===== src/Insights.antt =====
-- frontend/src/pages/Insights.tsx: its figures and the CSV file of them. A number of the server is of
-- a type that is a parameter, with its text; durations are in thousandths of a second, so that the
-- half at which `Math.round` goes up is a number. Today's date, in the file's name, is left out.
pub mod Laws
mod Examples
use clerq.Prelude.{
  ℕ, ◌+◌, ◌*◌, ◌/◌, ◌%◌, ltb, String, str_eq, Text, codes, Bool, true, false, Option, none, some,
  List, [], ◌∷◌, ◌++◌, map, take, get_or, map_get, if◌then◌else◌,
}
use clerq.Export.{csv_text}

-- `Math.round(x / 1000)`
abbrev round : ℕ → ℕ
round x = (x + 500) / 1000

-- what `fmtDuration` shows
pub data Duration : Type 0 where
  unknown : Duration
  seconds : ℕ → Duration
  minutes : ℕ → ℕ → Duration

-- `fmtDuration`
unfoldable pub fmt_duration : Option ℕ → Duration
fmt_duration none = unknown
fmt_duration (some x) =
    if ltb x 60000 then seconds (round x) else minutes (x / 60000) (round (x % 60000))

module _ (Number : Type 0) where
  -- `InsightsTotals`, the part that is exported
  pub record Totals : Type 0 where
    pub dossiers_processed : Number
    pub documents_processed : Number
    pub nonconformities_detected : Number
    pub avg_rt_seconds : Option Number
    pub human_validation_rate : Option Number
    pub corrections_after_generation : Number

  -- `InsightsPerRun`
  pub record PerRun : Type 0 where
    pub id : Number
    pub name : Option Text
    pub policy_name : Option Text
    pub created_at : Option Text
    pub documents : Number
    pub overall_effective : Option String
    pub nonconformities : Number
    pub duration_seconds : Option Number
    pub reviewed : Bool
    pub finalized : Bool

  -- `Insights`
  pub record Data : Type 0 where
    pub totals : Totals
    pub per_run : List PerRun

-- `created_at ? created_at.slice(0, 10) : ''`
abbrev day : Option Text → Text
day none = []
day (some at) = take 10 at

module _ {Number : Type 0} (show : Number → Text) (t : String → Text) where
  unfoldable pub header : List Text
  header =
      t "insights.col.dossier"
      ∷ t "insights.col.policy"
      ∷ t "insights.col.date"
      ∷ t "insights.col.docs"
      ∷ t "insights.col.verdict"
      ∷ t "insights.col.nonconf"
      ∷ t "insights.col.time"
      ∷ t "insights.col.reviewed"
      ∷ []

  -- `verdictLabel`
  unfoldable pub verdict_label : Option String → Text
  verdict_label none = []
  verdict_label (some v) =
      if str_eq v "pass"
      then t "insights.verdict.pass"
      else if str_eq v "fail"
      then t "insights.verdict.fail"
      else if str_eq v "needs_review"
      then t "insights.verdict.needs_review"
      else []

  abbrev opt_text : Option Number → Text
  opt_text n = get_or (map_get n show) []

  -- `#${r.id}`
  abbrev number_name : PerRun Number → Text
  number_name r = b'#' ∷ show r.id

  -- the cells of one run
  unfoldable pub row : PerRun Number → List Text
  unfolding verdict_label
  row r =
      get_or r.name (number_name r)
      ∷ get_or r.policy_name []
      ∷ day r.created_at
      ∷ show r.documents
      ∷ verdict_label r.overall_effective
      ∷ show r.nonconformities
      ∷ opt_text r.duration_seconds
      ∷ (if r.finalized
          then t "insights.finalized"
          else if r.reviewed
          then t "insights.draft"
          else [])
      ∷ []

  unfoldable pub summary : Totals Number → List (List Text)
  summary tot =
      (t "insights.metric.processed" ∷ show tot.dossiers_processed ∷ [])
      ∷ (t "insights.metric.documents" ∷ show tot.documents_processed ∷ [])
      ∷ (t "insights.metric.nonconformities" ∷ show tot.nonconformities_detected ∷ [])
      ∷ (t "insights.metric.avgTime" ∷ opt_text tot.avg_rt_seconds ∷ [])
      ∷ (t "insights.metric.humanRate" ∷ opt_text tot.human_validation_rate ∷ [])
      ∷ (t "insights.metric.corrections" ∷ show tot.corrections_after_generation ∷ [])
      ∷ []

  -- all lines: the empty one is that of a single empty cell
  abbrev pub lines : Data Number → List (List Text)
  lines d = summary d.totals ++ ([] ∷ []) ∷ header ∷ map row d.per_run

  -- the text of the file that `exportCsv` makes
  unfoldable pub export_csv : Data Number → Text
  unfolding csv_text summary header row
  export_csv d = csv_text (lines d)
