-- ===== src/Report/Examples.antt =====
-- A run with findings and a review, on which the report's theorems are applied.
use clerq.Prelude.{ℕ, ◌≡◌, refl, String, codes, [], ◌∷◌, none, some}
use mathlib.Core.List.{Perm}
use clerq.Prelude.Sort.Laws.{IsSortedBy, class}
use clerq.Types.{
  Verdict, Overall, uncertain, Run, RunStep, ValidationOutput, ValidationRuleResult, ReportReview,
  completed, succeeded, draft,
}
use clerq.Prelude.{◌+◌, length, lookup}
use clerq.Report.{
  rank_in, shown_results, report_head, annotations_of, results_of, validation_output, count_from,
  count_one, status_in, effective_status, status_rank, step_output,
}
use clerq.Prelude.Sort.{sort_by}
use clerq.Report.Order.{place_in, report_head-results}
use clerq.Report.Tally.{report_head-counts}
use clerq.Report.Source.{Source}

abbrev pub finding : String → Verdict → ValidationRuleResult
finding name status = record {
  rule_name = name;
  requirement = "required";
  scope = none;
  status = status;
  confidence = some 9040;
  evidence = some (codes "page 1, \"total\"");
  extracted = none;
  per_document = none;
}

abbrev pub output : ValidationOutput
output = record {
  policy_id = some 3;
  policy_name = some (codes "Invoices");
  policy_version_num = some 1;
  overall = some Overall.fail;
  results = some (
      finding "dated" Verdict.pass
      ∷ finding "signed" Verdict.fail
      ∷ finding "total" uncertain
      ∷ []);
  image_paths = some ("p1.png" ∷ "p2.png" ∷ "p1.png" ∷ []);
  documents = none;
}

abbrev pub review : ReportReview
review = record {
  state = draft;
  annotations =
      (
        "dated",
        record {
          note = none;
          override = some (record { status = Verdict.fail; reason = codes "no date on page 2" });
        },
      )
      ∷ [];
  finalized_at = none;
  finalized_by = none;
  effective_overall = none;
}

abbrev step : RunStep
step = record {
  id = 1;
  node_id = "n_1";
  node_type = "validate_documents";
  status = succeeded;
  output_data = some output;
  error = none;
  logs = [];
}

abbrev pub run : Run
run = record {
  id = 7;
  workflow_id = none;
  document_ids = some (4 ∷ 5 ∷ []);
  result = none;
  name = some (codes "ACME / May");
  source = none;
  policy_id = some 3;
  status = completed;
  error = none;
  created_at = codes "2024-05-06T10:00:00";
  steps = step ∷ [];
  review = some review;
}

report_tests :
    ((report_head run (some output) (some review)).results
      ≡ finding "dated" Verdict.pass
        ∷ finding "signed" Verdict.fail
        ∷ finding "total" uncertain
        ∷ [])
    × ((report_head run (some output) (some review)).counts
        ≡ record { fail = 2; uncertain = 1; pass = 0; na = 0 })
    × ((report_head run (some output) none).results
        ≡ finding "signed" Verdict.fail
          ∷ finding "total" uncertain
          ∷ finding "dated" Verdict.pass
          ∷ [])
    × (validation_output (some run) ≡ some output)
unfolding report_head shown_results validation_output count_from status_rank sort_by rank_in
    status_in effective_status lookup count_one step_output
report_tests = (refl, refl, refl, refl)

report_head-results_example :
    let shown = (report_head run (some output) (some review)).results in
    let key = place_in (annotations_of (some review)) in
    Perm shown (results_of (some output))
    × IsSortedBy key shown
    × ((k : ℕ) → class key k shown ≡ class key k (results_of (some output)))
report_head-results_example = report_head-results run (some output) (some review)

report_head-counts_example :
    let counts = (report_head run (some output) (some review)).counts in
    let results = results_of (some output) in
    let rank = rank_in (annotations_of (some review)) in
    (counts.fail ≡ length (class rank 0 results))
    × (counts.uncertain ≡ length (class rank 1 results))
    × (counts.na ≡ length (class rank 3 results))
    × (counts.fail + counts.uncertain + counts.pass + counts.na ≡ length results)
report_head-counts_example = report_head-counts run (some output) (some review)
