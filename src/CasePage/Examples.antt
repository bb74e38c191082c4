-- ===== src/CasePage/Examples.antt =====
-- The page of a case at concrete cases.
use clerq.Prelude.{
  ℕ, ◌+◌, ◌≤◌, ◌≡◌, refl, codes, true, false, Option, none, some, List, [], ◌∷◌, length, All,
  map_get,
}
use clerq.Prelude.Last.{IsLastOf}
use clerq.CasePage.{
  run, TimelineEvent, CaseData, is_verdict_run, latest_verdict_run, next_step, ask_for,
}
use clerq.CasePage.Guidance.{verdict_of, IsProposal, next_step-IsProposal}
use clerq.CasePage.Composer as Composer
use clerq.CasePage.Composer.{IsMessage, run-IsMessage}

abbrev verdict_run : ℕ → TimelineEvent
verdict_run id = record {
  kind = run;
  id = id;
  status = some "completed";
  last_result = some (record { kind = "verdict"; overall = some "pass" });
}

abbrev later_run : TimelineEvent
later_run = record { kind = run; id = 9; status = some "running"; last_result = none }

abbrev permit : CaseData
permit = record {
  id = 12;
  status = "open";
  name = none;
  contact_name = none;
  contact_email = some (codes "ana@x.ca");
  checklist =
      record { document_type = "Plan"; required = false; status = "missing" }
      ∷ record { document_type = "Deed"; required = true; status = "missing" }
      ∷ [];
  timeline = verdict_run 3 ∷ verdict_run 5 ∷ later_run ∷ [];
  documents = 4 ∷ [];
}

latest_verdict_run_test : map_get (latest_verdict_run permit) (λ (e : TimelineEvent). e.id) ≡ some 5
unfolding latest_verdict_run
latest_verdict_run_test = refl

next_step_test : next_step permit ≡ some (ask_for "Deed")
unfolding next_step
next_step_test = refl

next_step-IsProposal_example :
    (o : Option TimelineEvent) × IsLastOf is_verdict_run permit.timeline o
    × IsProposal permit (verdict_of o) (next_step permit)
next_step-IsProposal_example = next_step-IsProposal permit

abbrev written : List Composer.Event
written =
    Composer.pick Composer.reply
    ∷ Composer.press_send
    ∷ Composer.type_text (codes "Please send the deed.")
    ∷ Composer.press_send
    ∷ Composer.press_send
    ∷ Composer.sent
    ∷ []

run-IsMessage_example :
    All (IsMessage true 12) (Composer.run true 12 written Composer.open_composer).1
    × (length (Composer.run true 12 written Composer.open_composer).1
        ≤ 1 + Composer.count_answers written)
run-IsMessage_example = run-IsMessage true 12 written
