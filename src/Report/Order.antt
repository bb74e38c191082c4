-- ===== src/Report/Order.antt =====
-- The order of the findings in the report.
use mathlib.Core.List.{Perm}
use mathlib.Core.Path.{fun_ext}
use clerq.Prelude.{ℕ, ◌≡◌, refl, subst, Option, List}
use clerq.Prelude.Sort.Laws.{IsSortedBy, class, sort_by-IsSortedBy, sort_by-perm, class-sort_by}
use clerq.Types.{Run, Verdict, ValidationOutput, ValidationRuleResult, ReportReview}
use clerq.Report.{
  Annotations, status_rank, status_in, rank_in, shown_results, report_head, annotations_of,
  results_of,
}

-- How early a status stands in the report.
abbrev pub place : Verdict → ℕ
place Verdict.fail = 0
place Verdict.uncertain = 1
place Verdict.pass = 2
place Verdict.not_applicable = 3
place (Verdict.other s) = 9

-- The place of a finding is that of its effective status.
abbrev pub place_in : Annotations → ValidationRuleResult → ℕ
place_in anns r = place (status_in anns r)

status_rank-place : (v : Verdict) → status_rank v ≡ place v
unfolding status_rank
status_rank-place Verdict.fail = refl
status_rank-place Verdict.uncertain = refl
status_rank-place Verdict.pass = refl
status_rank-place Verdict.not_applicable = refl
status_rank-place (Verdict.other s) = refl

rank_in-place : (anns : Annotations) → rank_in anns ≡ place_in anns
unfolding rank_in
rank_in-place anns = fun_ext (λ r. status_rank-place (status_in anns r))

abbrev IsOrdered : (ValidationRuleResult → ℕ) → Annotations → List ValidationRuleResult → Type 0
IsOrdered key anns results =
    Perm (shown_results anns results) results
    × IsSortedBy key (shown_results anns results)
    × ((k : ℕ) → class key k (shown_results anns results) ≡ class key k results)

shown_results-IsOrdered :
    (anns : Annotations) (results : List ValidationRuleResult)
    → IsOrdered (rank_in anns) anns results
unfolding shown_results
shown_results-IsOrdered anns results = (
  sort_by-perm (rank_in anns) results,
  sort_by-IsSortedBy (rank_in anns) results,
  λ k. class-sort_by (rank_in anns) k results,
)

-- The findings shown are those of the output, by their effective statuses: the failed ones first,
-- then the uncertain, the passed, those that do not apply, and any other; findings of one of these
-- five kinds stay in the order of the output.
pub report_head-results :
    (run : Run) (output : Option ValidationOutput) (review : Option ReportReview)
    → let shown = (report_head run output review).results in
      let key = place_in (annotations_of review) in
      Perm shown (results_of output)
      × IsSortedBy key shown
      × ((k : ℕ) → class key k shown ≡ class key k (results_of output))
unfolding report_head
report_head-results run output review =
    let anns = annotations_of review in
    subst (λ key. IsOrdered key anns (results_of output)) (rank_in-place anns)
      (shown_results-IsOrdered anns (results_of output))
