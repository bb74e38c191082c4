-- ===== src/Review/Examples.antt =====
-- A session of a finding's controls, on which the theorems about them are applied.
use clerq.Prelude.{◌≡◌, length, All, refl, trim, codes, List, [], ◌∷◌, Option, none}
use clerq.Types.{Verdict, FindingAnnotation}
use clerq.Review.{
  Action, pick, edit_reason, save_verdict, succeeded, toggle_note, edit_note, save_text, closed,
  session, step,
}
use clerq.Review.Requests.{IsSound, session-IsSound}

-- The reviewer overrides a pass, gives a reason, saves, presses a button once more, and when the
-- server has answered writes a note.
abbrev actions : List (Option FindingAnnotation × Action)
actions =
    (none, pick Verdict.fail)
    ∷ (none, save_verdict)
    ∷ (none, edit_reason (codes " no date "))
    ∷ (none, save_verdict)
    ∷ (none, save_verdict)
    ∷ (none, succeeded)
    ∷ (none, toggle_note)
    ∷ (none, edit_note (codes "see page 2"))
    ∷ (none, save_text)
    ∷ []

session_tests : length (session "dated" Verdict.pass closed actions).1 ≡ 2
unfolding session step trim
session_tests = refl

session-IsSound_example :
    All (IsSound "dated" Verdict.pass) (session "dated" Verdict.pass closed actions).1
session-IsSound_example = session-IsSound "dated" Verdict.pass actions
