-- ===== src/Report/Tally.antt =====
-- The counts at the head of the report.
use clerq.Prelude.{ℕ, ◌+◌, ◌≡◌, ap, List, [], ◌∷◌, Option, length, arith}
use clerq.Prelude.Sort.Laws.{class, class-sort_by, length-sort_by}
use clerq.Types.{Run, ValidationOutput, ValidationRuleResult, ReportReview}
use clerq.Report.{
  Annotations, Counts, no_counts, count_one, count_from, status_in, status_rank, rank_in,
  shown_results, report_head, annotations_of, results_of,
}

-- What the counting loop adds to its start, said by the classes of equal rank.
record Adds (rank : ValidationRuleResult → ℕ) (c d : Counts) (rs : List ValidationRuleResult)
    : Type 0 where
  fails : d.fail ≡ c.fail + length (class rank 0 rs)
  uncertains : d.uncertain ≡ c.uncertain + length (class rank 1 rs)
  not_applicables : d.na ≡ c.na + length (class rank 3 rs)
  total : d.fail + d.uncertain + d.pass + d.na ≡ c.fail + c.uncertain + c.pass + c.na + length rs

count_one-Adds :
    (anns : Annotations) (c : Counts) (r : ValidationRuleResult)
    → Adds (rank_in anns) c (count_one (status_in anns r) c) (r ∷ [])
unfolding count_one rank_in status_rank
count_one-Adds anns c r = ground arith

count_from-Adds :
    (anns : Annotations) (c : Counts) (rs : List ValidationRuleResult)
    → Adds (rank_in anns) c (count_from anns c rs) rs
unfolding count_from
count_from-Adds anns c [] = omega arith
count_from-Adds anns c (r ∷ rs) =
    let d = count_one (status_in anns r) c in
    let first : Adds (rank_in anns) c d (r ∷ []) = count_one-Adds anns c r in
    let later : Adds (rank_in anns) d (count_from anns d rs) rs = count_from-Adds anns d rs in
    ground (arith, first, later)

-- The head's counts are those of the output's findings, each under its effective status; together
-- they count every finding once, a status that is none of the listed ones among the passed.
pub report_head-counts :
    (run : Run) (output : Option ValidationOutput) (review : Option ReportReview)
    → let counts = (report_head run output review).counts in
      let results = results_of output in
      let rank = rank_in (annotations_of review) in
      (counts.fail ≡ length (class rank 0 results))
      × (counts.uncertain ≡ length (class rank 1 results))
      × (counts.na ≡ length (class rank 3 results))
      × (counts.fail + counts.uncertain + counts.pass + counts.na ≡ length results)
unfolding report_head shown_results
report_head-counts run output review =
    let anns = annotations_of review in
    let rank = rank_in anns in
    let results = results_of output in
    let sums = count_from-Adds anns no_counts (shown_results anns results) in
    (
      omega (arith, sums.fails, ap length (class-sort_by rank 0 results)),
      omega (arith, sums.uncertains, ap length (class-sort_by rank 1 results)),
      omega (arith, sums.not_applicables, ap length (class-sort_by rank 3 results)),
      omega (arith, sums.total, length-sort_by rank results),
    )
