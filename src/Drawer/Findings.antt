-- ===== src/Drawer/Findings.antt =====
-- The drawer lists the findings as the report does.
use clerq.Prelude.{
  ℕ, suc, ◌+◌, ◌≤◌, ◌≡◌, refl, sym, subst, ◌∙◌, ap, String, str_eq, eq_iff, Bool, true, List, [],
  ◌∷◌, Option, none, some, All, map, length, keep, arith, Bool-cases, Option-cases, inl, inr,
  some_of, truthy,
}
use clerq.Prelude.Sort.{sort_by, insert_by}
use clerq.Prelude.Sort.Laws.{class, class-sort_by}
use clerq.Types.{ValidationRuleResult, ValidationOutput, ReportReview, Run, PolicyRule}
use clerq.Report
use clerq.Report.Tally.{report_head-counts}
use clerq.Report.{
  report_head, annotations_of, Annotations, status_in, rank_in, status_rank, effective_status,
  shown_results,
}
use clerq.Drawer.{
  Status, Finding, status_of, rank, effective, with_eff, not_after, insert_finding, sort_findings,
  findings_of, is_problem, unresolved, select_first, rule_for, wanted,
}

abbrev pub results_of : List Finding → List ValidationRuleResult
results_of = map (λ (f : Finding). f.result)

-- A finding's status is its effective status in the report.
abbrev IsEffective : Annotations → Finding → Type 0
IsEffective anns f = rank f.eff ≡ rank_in anns f.result

abbrev IsBehind : ℕ → List Finding → Type 0
IsBehind n = All (λ (f : Finding). n ≤ f.idx)

All-insert :
    (P : Finding → Type 0) (x : Finding) (ys : List Finding)
    → P x
    → All P ys
    → All P (insert_finding x ys)
unfolding insert_finding
All-insert P x [] p h = (p, tt)
All-insert P x (y ∷ ys) p (q, h) = elim (Bool-cases (not_after x y)) [
  | inl e ↦ rw e (p, (q, h))
  | inr e ↦ rw e (q, All-insert P x ys p h)
]

All-sort : (P : Finding → Type 0) (xs : List Finding) → All P xs → All P (sort_findings xs)
unfolding sort_findings
All-sort P [] h = tt
All-sort P (x ∷ xs) (p, h) = All-insert P x (sort_findings xs) p (All-sort P xs h)

-- inserting a finding of an earlier place is inserting its result by rank
results_of-insert :
    (anns : Annotations) (x : Finding) (ys : List Finding)
    → IsEffective anns x
    → All (IsEffective anns) ys
    → IsBehind (suc x.idx) ys
    → results_of (insert_finding x ys) ≡ insert_by (rank_in anns) x.result (results_of ys)
unfolding insert_finding insert_by
results_of-insert anns x [] p h k = refl
results_of-insert anns x (y ∷ ys) p (q, h) (l, k) =
    ground (arith, results_of-insert anns x ys p h k)

rank-effective :
    (anns : Annotations) (r : ValidationRuleResult) (eff : Status)
    → status_of (effective anns r) ≡ some eff
    → rank eff ≡ rank_in anns r
unfolding rank_in status_in effective_status status_rank rank
rank-effective anns r eff h = ground arith

-- what is known of the findings of `results` from a place on, before they are sorted
record AreFindings (anns : Annotations) (n : ℕ) (rs : List ValidationRuleResult) (fs : List Finding)
    : Type 0 where
  in_order : results_of (sort_findings fs) ≡ sort_by (rank_in anns) rs
  effective : All (IsEffective anns) fs
  placed : IsBehind n fs

IsBehind-weaken : (n : ℕ) (fs : List Finding) → IsBehind (suc n) fs → IsBehind n fs
IsBehind-weaken n [] h = tt
IsBehind-weaken n (f ∷ fs) (p, h) = (omega arith, IsBehind-weaken n fs h)

AreFindings-cons :
    (anns : Annotations) (n : ℕ) (r : ValidationRuleResult) (rs : List ValidationRuleResult)
    (eff : Status) (fs : List Finding)
    → rank eff ≡ rank_in anns r
    → AreFindings anns (suc n) rs fs
    → AreFindings anns n (r ∷ rs) (record { result = r; idx = n; eff = eff } ∷ fs)
unfolding sort_findings sort_by
AreFindings-cons anns n r rs eff fs p h =
    let x : Finding = record { result = r; idx = n; eff = eff } in
    record {
      in_order =
          results_of-insert anns x (sort_findings fs) p (All-sort (IsEffective anns) fs h.effective)
            (All-sort (λ f. suc n ≤ f.idx) fs h.placed)
          ∙ ap (insert_by (rank_in anns) r) h.in_order;
      effective = (p, h.effective);
      placed = (omega arith, IsBehind-weaken n fs h.placed);
    }

with_eff-AreFindings :
    (anns : Annotations) (n : ℕ) (rs : List ValidationRuleResult) (fs : List Finding)
    → with_eff anns n rs ≡ some fs
    → AreFindings anns n rs fs
unfolding with_eff sort_findings sort_by
with_eff-AreFindings anns n [] fs h =
    let none_left : [] ≡ fs = ground arith in
    subst (AreFindings anns n []) none_left
      (record { in_order = refl; effective = tt; placed = tt })
with_eff-AreFindings anns n (r ∷ rs) fs h = elim (Option-cases (status_of (effective anns r))) [
  | inl e ↦ absurd (ground arith)
  | inr (eff, e) ↦ elim (Option-cases (with_eff anns (suc n) rs)) [
    | inl e' ↦ absurd (ground arith)
    | inr (rest, e') ↦
        let eq : record { result = r; idx = n; eff = eff } ∷ rest ≡ fs = ground arith in
        subst (AreFindings anns n (r ∷ rs)) eq (
          AreFindings-cons anns n r rs eff rest (rank-effective anns r eff e)
            (with_eff-AreFindings anns (suc n) rs rest e'))
  ]
]

-- Where each status is one of the four that the drawer knows, it lists the findings of a run in the
-- order of the report.
pub results_of-findings_of :
    (anns : Annotations) (results : List ValidationRuleResult) (fs : List Finding)
    → findings_of anns results ≡ some fs
    → results_of fs ≡ shown_results anns results
unfolding findings_of shown_results
results_of-findings_of anns results fs h = elim (Option-cases (with_eff anns 0 results)) [
  | inl e ↦ absurd (ground arith)
  | inr (unsorted, e) ↦
      let sorted : sort_findings unsorted ≡ fs = ground arith in
      ap results_of (sym sorted) ∙ (with_eff-AreFindings anns 0 results unsorted e).in_order
]

length-problems :
    (anns : Annotations) (fs : List Finding)
    → All (IsEffective anns) fs
    → length (keep is_problem fs)
      ≡ length (class (rank_in anns) 0 (results_of fs))
        + length (class (rank_in anns) 1 (results_of fs))
unfolding rank
length-problems anns [] h = refl
length-problems anns (f ∷ fs) (p, h) = ground (arith, length-problems anns fs h)

findings_of-IsEffective :
    (anns : Annotations) (results : List ValidationRuleResult) (fs : List Finding)
    → findings_of anns results ≡ some fs
    → All (IsEffective anns) fs
unfolding findings_of
findings_of-IsEffective anns results fs h = elim (Option-cases (with_eff anns 0 results)) [
  | inl e ↦ absurd (ground arith)
  | inr (unsorted, e) ↦
      let sorted : sort_findings unsorted ≡ fs = ground arith in
      subst (All (IsEffective anns)) sorted (
        All-sort (IsEffective anns) unsorted
          (with_eff-AreFindings anns 0 results unsorted e).effective)
]

-- Where the drawer knows each status, its number of findings to review is the number of those that
-- the head of the report counts as failed or uncertain.
unresolved-findings_of :
    (run : Run) (output : Option ValidationOutput) (review : Option ReportReview)
    (fs : List Finding)
    → findings_of (annotations_of review) (Report.results_of output) ≡ some fs
    → let counts = (report_head run output review).counts in
      unresolved fs ≡ counts.fail + counts.uncertain
unfolding unresolved shown_results
unresolved-findings_of run output review fs h =
    let anns = annotations_of review in
    let results = Report.results_of output in
    let key = rank_in anns in
    let same : results_of fs ≡ sort_by key results = results_of-findings_of anns results fs h in
    let counts = report_head-counts run output review in
    omega (
      arith,
      length-problems anns fs (findings_of-IsEffective anns results fs h),
      ap (λ rs. length (class key 0 rs)) same,
      ap (λ rs. length (class key 1 rs)) same,
      ap length (class-sort_by key 0 results),
      ap length (class-sort_by key 1 results),
      counts.0,
      counts.1,
    )

abbrev pub has_finding : String → List Finding → Bool
has_finding name = some_of (λ (f : Finding). str_eq f.result.rule_name name)

wanted-listed :
    (doc_type : Option ℕ) (rules : Option (List PolicyRule)) (fs : List Finding) (name : String)
    → truthy (wanted doc_type rules fs) ≡ some name
    → has_finding name fs ≡ true
wanted-listed doc_type rules fs name h = elim (Option-cases (rule_for doc_type rules)) [
  | inl e ↦ absurd (ground arith)
  | inr (r, e) ↦ ground arith
]

has_finding-head :
    (f : Finding) (fs : List Finding) → has_finding f.result.rule_name (f ∷ fs) ≡ true
has_finding-head f fs = ground (arith, eq_iff f.result.rule_name f.result.rule_name)

-- Once there are findings, and nothing is selected yet, the drawer selects one of them.
select_first-listed :
    (doc_type : Option ℕ) (rules : Option (List PolicyRule)) (f : Finding) (fs : List Finding)
    (selected : Option String)
    → truthy selected ≡ none
    → (name : String) × (select_first doc_type rules (f ∷ fs) selected ≡ some name)
      × (has_finding name (f ∷ fs) ≡ true)
unfolding select_first
select_first-listed doc_type rules f fs selected h =
    elim (Option-cases (truthy (wanted doc_type rules (f ∷ fs)))) [
      | inl e ↦ (f.result.rule_name, ground arith, has_finding-head f fs)
      | inr (name, e) ↦ (name, ground arith, wanted-listed doc_type rules (f ∷ fs) name e)
    ]
