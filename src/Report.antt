-- ===== src/Report.antt =====
-- frontend/src/components/ReportView.tsx: what the report shows of a run, with the reviewer's
-- overrides. The markup itself is not modelled.
pub mod Order
pub mod Tally
pub mod Source
pub mod Examples
use clerq.Prelude.{
  ℕ, zero, suc, ◌+◌, ltb, String, str_eq, Text, codes, Bool, true, false, not, ◌&&◌, ◌||◌, Option,
  none, some, List, [], ◌∷◌, length, lookup, find, get_or, or_else, is_some, then_get, map_get,
  if◌then◌else◌,
}
use clerq.Prelude.Sort.{sort_by}
use clerq.Types
use clerq.Types.{
  Verdict, Overall, ReviewState, ReviewOverride, FindingAnnotation, ReportReview, Run, RunStep,
  ValidationOutput, ValidationRuleResult, uncertain, not_applicable, finalized, needs_review,
}

abbrev pub Annotations : Type 0
Annotations = List (String × FindingAnnotation)

-- `effectiveStatus`
unfoldable pub effective_status : ValidationRuleResult → Option FindingAnnotation → Verdict
effective_status r ann = get_or (map_get (then_get ann (λ a. a.override)) (λ o. o.status)) r.status

-- `STATUS_RANK[s] ?? 9`
unfoldable pub status_rank : Verdict → ℕ
status_rank Verdict.fail = 0
status_rank uncertain = 1
status_rank Verdict.pass = 2
status_rank not_applicable = 3
status_rank (Verdict.other s) = 9

-- A finding's status in the report: the annotation is looked up by the rule's name.
unfoldable pub status_in : Annotations → ValidationRuleResult → Verdict
status_in anns r = effective_status r (lookup r.rule_name anns)

unfoldable pub rank_in : Annotations → ValidationRuleResult → ℕ
rank_in anns r = status_rank (status_in anns r)

-- the order of the findings
unfoldable pub shown_results : Annotations → List ValidationRuleResult → List ValidationRuleResult
shown_results anns results = sort_by (rank_in anns) results

pub record Counts : Type 0 where
  pub fail : ℕ
  pub uncertain : ℕ
  pub pass : ℕ
  pub na : ℕ

abbrev pub no_counts : Counts
no_counts = record { fail = 0; uncertain = 0; pass = 0; na = 0 }

-- one round of the counting loop: all that is not listed counts as a pass
unfoldable pub count_one : Verdict → Counts → Counts
count_one Verdict.fail c = record c { fail = c.fail + 1 }
count_one uncertain c = record c { uncertain = c.uncertain + 1 }
count_one not_applicable c = record c { na = c.na + 1 }
count_one Verdict.pass c = record c { pass = c.pass + 1 }
count_one (Verdict.other s) c = record c { pass = c.pass + 1 }

unfoldable pub count_from : Annotations → Counts → List ValidationRuleResult → Counts
count_from anns c [] = c
count_from anns c (r ∷ rs) = count_from anns (count_one (status_in anns r) c) rs

abbrev is_validate_step : RunStep → Bool
is_validate_step s = str_eq s.node_type "validate_documents" && is_some s.output_data

-- `!!overall`
abbrev pub overall_truthy : Option Overall → Bool
overall_truthy none = false
overall_truthy (some (Overall.other s)) = not (str_eq s "")
overall_truthy (some _) = true

-- whether `run.result` is used: it holds a list of results or an overall verdict
abbrev pub is_output : ValidationOutput → Bool
is_output r = is_some r.results || overall_truthy r.overall

-- the fallback: the output of the run's validation step
unfoldable pub step_output : List RunStep → Option ValidationOutput
step_output steps = then_get (find is_validate_step steps) (λ s. s.output_data)

-- `getValidationOutput`
unfoldable pub validation_output : Option Run → Option ValidationOutput
validation_output none = none
validation_output (some run) = elim run.result [
  | none ↦ step_output run.steps
  | some r ↦ if is_output r then some r else step_output run.steps
]

-- what the head of the report shows
pub record ReportHead : Type 0 where
  pub results : List ValidationRuleResult
  pub counts : Counts
  pub overall : Option Overall
  pub is_finalized : Bool
  pub has_review : Bool
  pub doc_count : ℕ

abbrev review_finalized : ReviewState → Bool
review_finalized finalized = true
review_finalized _ = false

abbrev annotated : Annotations → Bool
annotated [] = false
annotated (_ ∷ _) = true

-- `run.document_ids?.length || 1`
abbrev doc_count_of : Option (List ℕ) → ℕ
doc_count_of none = 1
doc_count_of (some []) = 1
doc_count_of (some (d ∷ ds)) = length (d ∷ ds)

abbrev pub annotations_of : Option ReportReview → Annotations
annotations_of review = get_or (map_get review (λ r. r.annotations)) []

abbrev pub results_of : Option ValidationOutput → List ValidationRuleResult
results_of output = get_or (then_get output (λ o. o.results)) []

-- the body of `ReportView` above its markup
unfoldable pub report_head : Run → Option ValidationOutput → Option ReportReview → ReportHead
report_head run output review =
    let anns = annotations_of review in
    let results = shown_results anns (results_of output) in
    let done = get_or (map_get review (λ r. review_finalized r.state)) false in
    record {
      results = results;
      counts = count_from anns no_counts results;
      overall =
          or_else (then_get review (λ r. r.effective_overall)) (then_get output (λ o. o.overall));
      is_finalized = done;
      has_review = is_some review && (annotated anns || done);
      doc_count = doc_count_of run.document_ids;
    }
