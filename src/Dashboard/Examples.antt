-- ===== src/Dashboard/Examples.antt =====
-- The widget at a concrete run: it is cleared during an upload.
use clerq.Prelude.{◌≡◌, refl, codes, none, some, List, [], ◌∷◌, All}
use clerq.Types.{RunStatus, SseRunUpdate}
use clerq.Dashboard.{
  Event, select_file, press_run, clear, uploaded, created, update, empty_widget, run,
}
use clerq.Dashboard.Stream.{IsWidget, IsDueEffect, run-IsWidget}

abbrev ended : SseRunUpdate
ended = record { run_id = 6; status = RunStatus.completed; error = none; steps = [] }

abbrev cleared : List Event
cleared =
    select_file (codes "plan.pdf")
    ∷ press_run
    ∷ clear
    ∷ uploaded 0 31
    ∷ created 0 6
    ∷ update 6 ended
    ∷ []

run-IsWidget_example :
    IsWidget cleared (run cleared (empty_widget [])).0
    × All IsDueEffect (run cleared (empty_widget [])).1
run-IsWidget_example = run-IsWidget cleared

-- the widget that was cleared shows the run all the same
run_id_test : (run cleared (empty_widget [])).0.run_id ≡ some 6
unfolding run
run_id_test = refl
