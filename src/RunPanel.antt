-- ===== src/RunPanel.antt =====
-- frontend/src/components/RunStatusPanel.tsx: the panel of the active run. The server's event stream
-- and the answers of `useRun` are events; an event of a stream that was closed is not delivered, and
-- an answer belongs to the run that it was asked for.
pub mod Stream
pub mod Pages
pub mod Log
mod Examples
use clerq.Prelude.{
  ℕ, ◌==◌, String, Text, Bool, true, false, not, ◌&&◌, ◌||◌, Option, none, some, List, [], ◌∷◌,
  get_or, or_else, then_get, map_get, is_some, if◌then◌else◌,
}
use clerq.Types.{Run, RunStep, SseRunUpdate, RunStatus}

pub record Panel : Type 0 where
  pub run_id : ℕ
  pub sse_state : Option SseRunUpdate
  -- the stream of `run_id` is open
  pub stream : Bool
  pub run_data : Option Run
  pub expanded : Bool
  pub show_images : Bool
  pub log_step : Option RunStep

pub data Event : Type 0 where
  -- another run becomes the active one, with what the cache has of it
  select : ℕ → Option Run → Event
  -- the stream of a run: its messages and its errors
  update : ℕ → SseRunUpdate → Event
  stream_done stream_error : ℕ → Event
  -- an answer of `useRun` for a run
  fetched : ℕ → Run → Event
  toggle_expanded view_images close_images close_log : Event
  view_log : RunStep → Event

abbrev pub of_run : Run → SseRunUpdate
of_run r = record { run_id = r.id; status = r.status; error = r.error; steps = r.steps }

-- `state`
unfoldable pub shown : Panel → Option SseRunUpdate
shown p = or_else p.sse_state (map_get p.run_data of_run)

-- `collectImagePaths`
unfoldable pub collect_image_paths : List RunStep → List String
collect_image_paths [] = []
collect_image_paths (step ∷ steps) = elim (then_get step.output_data (λ o. o.image_paths)) [
  | some (p ∷ ps) ↦ p ∷ ps
  | _ ↦ collect_image_paths steps
]

abbrev is_running : RunStatus → Bool
is_running RunStatus.pending = true
is_running RunStatus.running = true
is_running _ = false

-- `isActive`
unfoldable pub is_active : Option SseRunUpdate → Bool
is_active none = false
is_active (some u) = is_running u.status

-- the effect of a run's id
abbrev pub open_stream : ℕ → Option Run → Panel → Panel
open_stream id cached p = record p {
  run_id = id;
  sse_state = none;
  stream = true;
  run_data = cached;
  show_images = false;
}

abbrev pub open_panel : ℕ → Option Run → Panel
open_panel id cached = record {
  run_id = id;
  sse_state = none;
  stream = true;
  run_data = cached;
  expanded = true;
  show_images = false;
  log_step = none;
}

-- the stream's own messages, where it is open
abbrev is_heard : ℕ → Panel → Bool
is_heard id p = id == p.run_id && p.stream

unfoldable pub handle : Event → Panel → Panel
handle (select id cached) p = if id == p.run_id then p else open_stream id cached p
handle (update id u) p = if is_heard id p then record p { sse_state = some u } else p
handle (stream_done id) p = if is_heard id p then record p { stream = false } else p
handle (stream_error id) p = if is_heard id p then record p { stream = false } else p
handle (fetched id r) p = if id == p.run_id then record p { run_data = some r } else p
handle toggle_expanded p = record p { expanded = not p.expanded }
handle view_images p = record p { show_images = true }
handle close_images p = record p { show_images = false }
handle (view_log step) p = record p { log_step = some step }
handle close_log p = record p { log_step = none }

unfoldable pub run : List Event → Panel → Panel
unfolding handle
run [] p = p
run (e ∷ es) p = run es (handle e p)

-- the lines that the log viewer is given, where it is shown
unfoldable pub log_lines : Panel → Option (List Text)
log_lines p = map_get p.log_step (λ (s : RunStep). s.logs)
