-- ===== src/ValidatePage/RunDetail.antt =====
-- `RunDetailModal`: a run while it is going on. The number of the policy's rules comes with each key;
-- it is 0 until the policy is loaded.
pub mod Rules
use clerq.Prelude.{
  ℕ, ◌+◌, ◌-◌, ◌==◌, min, max, String, str_eq, Bool, true, false, not, ◌&&◌, ◌||◌, Option, none,
  some, is_some, List, [], ◌∷◌, find, get_or, then_get, map_get, if◌then◌else◌,
}
use mathlib.Core.List.{reverse}
use clerq.Types.{
  Run, RunStep, RunStatus, StepStatus, Verdict, SseRunUpdate, ValidationOutput,
  ValidationRuleResult,
}

pub record Detail : Type 0 where
  pub live_steps : List RunStep
  pub live_status : RunStatus
  pub selected_rule_index : Option ℕ
  pub lightbox_index : Option ℕ
  -- the event stream is open
  pub stream : Bool
  pub closed : Bool

pub data Event : Type 0 where
  update : SseRunUpdate → Event
  stream_end escape close_image : Event
  -- the keys, with the number of rules
  arrow_down arrow_up : ℕ → Event
  click_rule open_image : ℕ → Event

abbrev is_live : RunStatus → Bool
is_live RunStatus.pending = true
is_live RunStatus.running = true
is_live RunStatus.waiting = true
is_live _ = false

unfoldable pub open_detail : Run → Detail
open_detail r = record {
  live_steps = r.steps;
  live_status = r.status;
  selected_rule_index = none;
  lightbox_index = none;
  stream = is_live r.status;
  closed = false;
}

-- `setSelectedRuleIndex`, of the two keys
abbrev pub below : ℕ → Option ℕ → Option ℕ
below n none = some 0
below n (some v) = some (min (v + 1) (n - 1))

abbrev pub above : Option ℕ → Option ℕ
above none = some 0
above (some v) = some (v - 1)

unfoldable pub handle : Event → Detail → Detail
handle (update u) d =
    if d.stream then record d { live_steps = u.steps; live_status = u.status } else d
handle stream_end d = record d { stream = false }
handle escape d = if is_some d.lightbox_index then d else record d { closed = true }
handle (arrow_down n) d =
    if is_some d.lightbox_index || n == 0
    then d
    else record d { selected_rule_index = below n d.selected_rule_index }
handle (arrow_up n) d =
    if is_some d.lightbox_index || n == 0
    then d
    else record d { selected_rule_index = above d.selected_rule_index }
handle (click_rule i) d = record d { selected_rule_index = some i }
handle (open_image i) d = record d { lightbox_index = some i }
handle close_image d = record d { lightbox_index = none }

unfoldable pub run : List Event → Detail → Detail
unfolding handle
run [] d = d
run (e ∷ es) d = run es (handle e d)

-- `validateStep`
abbrev pub validate_step : Detail → Option RunStep
validate_step d = find (λ (s : RunStep). str_eq s.node_type "validate_documents") d.live_steps

abbrev pub is_running : StepStatus → Bool
is_running StepStatus.running = true
is_running _ = false

abbrev pub is_ended : StepStatus → Bool
is_ended StepStatus.succeeded = true
is_ended StepStatus.failed = true
is_ended _ = false

-- `isValidating`
abbrev pub is_validating : Option RunStep → Bool
is_validating none = false
is_validating (some s) = is_running s.status

-- `validationOutput`
abbrev pub output_of : Option RunStep → Option ValidationOutput
output_of none = none
output_of (some s) = if is_ended s.status then s.output_data else none

abbrev pub results_of : Option RunStep → List ValidationRuleResult
results_of step = get_or (then_get (output_of step) (λ (o : ValidationOutput). o.results)) []

-- `resultsByName.get(name)`: of the results of one name the last stays in the map
unfoldable pub result_by_name : String → List ValidationRuleResult → Option ValidationRuleResult
result_by_name name results =
    find (λ (r : ValidationRuleResult). str_eq r.rule_name name) (reverse results)

-- `RuleStatus`
pub data RuleStatus : Type 0 where
  waiting checking : RuleStatus
  judged : Verdict → RuleStatus

-- `ruleStatus`
unfoldable pub rule_status : String → Option RunStep → RuleStatus
unfolding result_by_name
rule_status name step =
    if is_validating step
    then checking
    else get_or
        (map_get (result_by_name name (results_of step))
          (λ (r : ValidationRuleResult). judged r.status))
        waiting
