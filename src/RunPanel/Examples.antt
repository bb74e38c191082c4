-- ===== src/RunPanel/Examples.antt =====
-- The panel, its log and its pages at concrete runs.
use clerq.Prelude.{ℕ, ◌≡◌, refl, Text, codes, true, false, none, some, List, [], ◌∷◌}
use clerq.Types.{Run, SseRunUpdate, RunStatus}
use clerq.RunPanel.{Panel, Event, select, update, fetched, shown, open_panel, run, log_lines}
use clerq.RunPanel.Stream.{IsOwnUpdate, shown-run, run-frozen}
use clerq.RunPanel.Log as Log

abbrev started : ℕ → SseRunUpdate
started id = record { run_id = id; status = RunStatus.running; error = none; steps = [] }

abbrev answer : ℕ → RunStatus → Run
answer id status = record {
  id = id;
  workflow_id = none;
  document_ids = none;
  result = none;
  name = none;
  source = none;
  policy_id = none;
  status = status;
  error = none;
  created_at = codes "2026-01-05T09:00:00Z";
  steps = [];
  review = none;
}

abbrev two_runs : List Event
two_runs =
    update 3 (started 3)
    ∷ select 4 none
    ∷ update 3 (started 3)
    ∷ fetched 3 (answer 3 RunStatus.completed)
    ∷ fetched 4 (answer 4 RunStatus.running)
    ∷ []

shown-run_example :
    IsOwnUpdate (run two_runs (open_panel 3 none)).run_id (shown (run two_runs (open_panel 3 none)))
shown-run_example = shown-run two_runs 3 (refl, (tt, (refl, (refl, (refl, tt)))))

abbrev broken : Panel
broken = record (open_panel 3 none) { stream = false; sse_state = some (started 3) }

abbrev finished : List Event
finished = fetched 3 (answer 3 RunStatus.completed) ∷ []

run-frozen_example :
    (shown (run finished broken) ≡ some (started 3))
    × (log_lines (run finished broken) ≡ log_lines broken)
run-frozen_example = run-frozen finished broken (started 3) (tt, tt) refl refl

abbrev searching : Log.Viewer
searching = record Log.open_viewer { show_search = true; query = codes "err" }

abbrev lines : List Text
lines = codes "started" ∷ codes "error: no page" ∷ []

abbrev dragged : List Log.Event
dragged = Log.drag_start 500 ∷ Log.drag_move 20 700 ∷ Log.drag_up ∷ []
