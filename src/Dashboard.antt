-- ===== src/Dashboard.antt =====
-- frontend/src/pages/Dashboard.tsx: the widget of a favourite workflow. `handleRun` waits for two
-- answers, and the widget can be cleared meanwhile, so that several calls may be under way: they are
-- told apart by their places in the list of all calls. A file is its name.
pub mod Stream
mod Examples
use clerq.Prelude.{
  ℕ, zero, suc, ◌==◌, ltb, ◌/◌, ◌-◌, String, str_eq, Text, Bool, true, false, not, ◌&&◌, ◌||◌,
  Option, none, some, is_some, List, [], ◌∷◌, ◌++◌, find, some_of, get_elem?, set, length, then_get,
  if◌then◌else◌,
}
use clerq.Types.{RunStep, RunStatus, StepStatus, SseRunUpdate, ValidationOutput}

pub data Phase : Type 0 where
  idle file_selected running done : Phase

-- where a call of `handleRun` is
pub data Call : Type 0 where
  uploading over : Call
  -- with the document's id
  triggering : ℕ → Call

-- `WidgetState`, with the stream and the calls
pub record Widget : Type 0 where
  pub phase : Phase
  pub file : Option Text
  pub document_id : Option ℕ
  pub run_id : Option ℕ
  pub run_status : Option RunStatus
  pub steps : List RunStep
  pub error : Option Text
  pub is_uploading : Bool
  -- the run whose stream is open
  pub stream : Option ℕ
  pub calls : List Call

pub data Effect : Type 0 where
  upload : Text → Effect
  trigger : ℕ → Effect
  -- `onSidebarOpen`
  open_sidebar : RunStatus → List RunStep → Effect

pub data Event : Type 0 where
  select_file : Text → Event
  press_run clear : Event
  -- the answers to a call
  uploaded created : ℕ → ℕ → Event
  failed : ℕ → Text → Event
  -- the stream of a run
  update : ℕ → SseRunUpdate → Event
  stream_end : ℕ → Event

-- `emptyWidget`, where `calls` are under way
abbrev pub empty_widget : List Call → Widget
empty_widget calls = record {
  phase = idle;
  file = none;
  document_id = none;
  run_id = none;
  run_status = none;
  steps = [];
  error = none;
  is_uploading = false;
  stream = none;
  calls = calls;
}

-- `['completed', 'failed', 'cancelled'].includes(status)`
abbrev pub is_terminal : RunStatus → Bool
is_terminal RunStatus.completed = true
is_terminal RunStatus.failed = true
is_terminal RunStatus.cancelled = true
is_terminal _ = false

abbrev is_succeeded : StepStatus → Bool
is_succeeded StepStatus.succeeded = true
is_succeeded _ = false

-- `showResultsDone`
abbrev pub show_results_done : List RunStep → Bool
show_results_done =
    some_of (λ (s : RunStep). str_eq s.node_type "show_results" && is_succeeded s.status)

-- `findShowResultsOutput`
unfoldable pub find_show_results_output : List RunStep → Option ValidationOutput
find_show_results_output steps =
    then_get
      (find
        (λ (s : RunStep).
          str_eq s.node_type "show_results" && is_succeeded s.status && is_some s.output_data)
        steps)
      (λ (s : RunStep). s.output_data)

-- the stream's `update`
unfoldable pub on_update : SseRunUpdate → Widget → Widget × List Effect
on_update u w = (
  record w {
    run_status = some u.status;
    steps = u.steps;
    phase = if is_terminal u.status then done else running;
  },
  (if show_results_done u.steps && is_terminal u.status
      then open_sidebar u.status u.steps ∷ []
      else []),
)

-- `handleRun`, up to its first request
abbrev pub start_run : Option Text → Widget → Widget × List Effect
start_run none w = (w, [])
start_run (some f) w = (
  record w { is_uploading = true; error = none; calls = w.calls ++ uploading ∷ [] },
  upload f ∷ [],
)

abbrev pub call_at : ℕ → Widget → Option Call
call_at k w = get_elem? w.calls k

-- the run is there: its stream takes the place of the one before
unfoldable pub on_created : ℕ → ℕ → ℕ → Widget → Widget
on_created k doc id w = record w {
  document_id = some doc;
  run_id = some id;
  is_uploading = false;
  phase = running;
  run_status = some RunStatus.pending;
  steps = [];
  stream = some id;
  calls = set w.calls k over;
}

-- an answer, where the call waits for it
abbrev pub take_uploaded : Option Call → ℕ → ℕ → Widget → Widget × List Effect
take_uploaded (some uploading) k doc w =
    (record w { calls = set w.calls k (triggering doc) }, trigger doc ∷ [])
take_uploaded _ k doc w = (w, [])

abbrev pub take_created : Option Call → ℕ → ℕ → Widget → Widget
take_created (some (triggering doc)) k id w = on_created k doc id w
take_created _ k id w = w

abbrev pub take_failed : Option Call → ℕ → Text → Widget → Widget
take_failed none k message w = w
take_failed (some over) k message w = w
take_failed (some _) k message w = record w {
  is_uploading = false;
  error = some message;
  calls = set w.calls k over;
}

-- the button of `handleRun` is there with a file
abbrev pub is_selected : Phase → Bool
is_selected file_selected = true
is_selected _ = false

abbrev pub is_idle : Phase → Bool
is_idle idle = true
is_idle _ = false

abbrev pub is_heard : ℕ → Option ℕ → Bool
is_heard id none = false
is_heard id (some s) = s == id

unfoldable pub handle : Event → Widget → Widget × List Effect
unfolding on_update on_created
handle (select_file f) w =
    if is_idle w.phase then (record w { file = some f; phase = file_selected }, []) else (w, [])
handle press_run w =
    if is_selected w.phase && not w.is_uploading then start_run w.file w else (w, [])
handle clear w = if is_idle w.phase then (w, []) else (empty_widget w.calls, [])
handle (uploaded k doc) w = take_uploaded (call_at k w) k doc w
handle (created k id) w = (take_created (call_at k w) k id w, [])
handle (failed k message) w = (take_failed (call_at k w) k message w, [])
handle (update id u) w = if is_heard id w.stream then on_update u w else (w, [])
handle (stream_end id) w =
    if is_heard id w.stream then (record w { stream = none }, []) else (w, [])

unfoldable pub run : List Event → Widget → Widget × List Effect
unfolding handle
run [] w = (w, [])
run (e ∷ es) w = let (w', out) = handle e w in let (end, more) = run es w' in (end, out ++ more)
