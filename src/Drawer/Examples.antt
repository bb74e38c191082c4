-- ===== src/Drawer/Examples.antt =====
-- A run in the drawer, on which the theorems about it are applied.
use clerq.Prelude.{
  has, IsDistinct, ℕ, ◌≡◌, refl, codes, lookup, String, List, [], ◌∷◌, none, some, All, str_eq,
  if◌then◌else◌,
}
use clerq.Types.{Verdict, ValidationRuleResult}
use clerq.Review.{Props}
use clerq.Report
use clerq.Report.{Annotations, shown_results, annotations_of, report_head}
use clerq.Report.Examples.{finding, output, review, run}
use clerq.Drawer.{
  Status, Finding, rank, with_eff, sort_findings, insert_finding, findings_of, push, push_all,
  gather_from, gather_images,
}
use clerq.Drawer.Findings.{results_of, results_of-findings_of}
use clerq.Drawer.Images.{paths, gather_images-IsDistinct}
use clerq.Drawer.Resolve.{
  fresh, Turn, switch, act, press, edit_reason, save_pending, succeeded, pass, fail, session,
}
use clerq.Drawer.Resolve.Requests.{IsSoundSent, session-IsSoundSent}

abbrev anns : Annotations
anns = annotations_of (some review)

abbrev results : List ValidationRuleResult
results = Report.results_of (some output)

abbrev at : ℕ → Status → ValidationRuleResult → Finding
at idx eff r = record { result = r; idx = idx; eff = eff }

-- the override makes "dated" a failure, which keeps its place before "signed"
abbrev listed : List Finding
listed =
    at 0 Status.fail (finding "dated" Verdict.pass)
    ∷ at 1 Status.fail (finding "signed" Verdict.fail)
    ∷ at 2 Status.uncertain (finding "total" Verdict.uncertain)
    ∷ []

findings_listed : findings_of anns results ≡ some listed
unfolding findings_of with_eff lookup sort_findings insert_finding rank
findings_listed = refl

images_tests : gather_images run.steps ≡ "p1.png" ∷ "p2.png" ∷ []
unfolding gather_images gather_from push_all push
images_tests = refl

results_of-findings_of_example : results_of listed ≡ shown_results anns results
results_of-findings_of_example = results_of-findings_of anns results listed findings_listed

gather_images-IsDistinct_example :
    IsDistinct (gather_images run.steps)
    × ((p : String) → has p (gather_images run.steps) ≡ has p (paths run.steps))
gather_images-IsDistinct_example = gather_images-IsDistinct run.steps

abbrev dated : Props
dated = record { rule_name = "dated"; ai_status = Verdict.pass; annotation = none }

abbrev signed : Props
signed = record { rule_name = "signed"; ai_status = Verdict.fail; annotation = none }

-- A reason is given for "dated", another finding is shown before it is saved, and that one is
-- passed with a reason.
abbrev turns_taken : List Turn
turns_taken =
    act none (press fail)
    ∷ act none (edit_reason (codes "no date"))
    ∷ switch signed
    ∷ act none save_pending
    ∷ act none (press pass)
    ∷ act none (edit_reason (codes "signed on page 3"))
    ∷ act none save_pending
    ∷ act none succeeded
    ∷ []

abbrev ai_of : String → Verdict
ai_of name = if str_eq name "signed" then Verdict.fail else Verdict.pass

session-IsSoundSent_example : All IsSoundSent (session dated fresh turns_taken)
session-IsSoundSent_example =
    session-IsSoundSent ai_of dated fresh turns_taken refl
      (tt, (tt, (refl, (tt, (tt, (tt, (tt, (tt, tt)))))))) refl
