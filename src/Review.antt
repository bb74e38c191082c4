-- ===== src/Review.antt =====
-- frontend/src/pages/ReportPage.tsx, `FindingControls`: the reviewer's controls under a finding
-- (choose a verdict, give the reason, write a note). A step takes what the user or the server does
-- to the component's state and to the request that it sends, if any. The component's props that a
-- refetch changes, the annotation, come with each step.
pub mod Requests
mod Examples
use clerq.Prelude.{
  ℕ, String, Text, codes, trim, is_empty, Bool, true, false, not, ◌&&◌, ◌||◌, Option, none, some,
  List, [], ◌∷◌, ◌++◌, str_eq, get_or, is_some, then_get, map_get, if◌then◌else◌,
}
use clerq.Types
use clerq.Types.{Verdict, verdict_name, ReviewOverride, FindingAnnotation}

-- `AnnotateArgs` of api/review.ts, without the run's id
pub record AnnotateArgs : Type 0 where
  pub rule_name : String
  pub note : Option Text
  pub clear_note : Bool
  pub override_status : Option Verdict
  pub override_reason : Option Text
  pub clear_override : Bool

-- what the pending request's `onSuccess` does
pub data AfterSave : Type 0 where
  close_verdict close_note nothing : AfterSave

pub record Controls : Type 0 where
  pub note_open : Bool
  pub note_draft : Text
  pub pending_status : Option Verdict
  pub reason_draft : Text
  pub in_flight : Option AfterSave

abbrev pub closed : Controls
closed = record {
  note_open = false;
  note_draft = [];
  pending_status = none;
  reason_draft = [];
  in_flight = none;
}

-- the component's props
pub record Props : Type 0 where
  pub rule_name : String
  pub ai_status : Verdict
  pub annotation : Option FindingAnnotation

abbrev pub override_of : Props → Option ReviewOverride
override_of p = then_get p.annotation (λ a. a.override)

-- `annotation?.note ?? ''`
abbrev pub note_of : Props → Text
note_of p = get_or (then_get p.annotation (λ a. a.note)) []

-- `v === w` on statuses, which are strings
abbrev pub same_status : Verdict → Verdict → Bool
same_status v w = str_eq (verdict_name v) (verdict_name w)

abbrev pub request : Props → AnnotateArgs
request p = record {
  rule_name = p.rule_name;
  note = none;
  clear_note = false;
  override_status = none;
  override_reason = none;
  clear_override = false;
}

abbrev send : AfterSave → AnnotateArgs → Controls → Controls × Option AnnotateArgs
send after args c = (record c { in_flight = some after }, some args)

-- `override?.status === value ? (override.reason ?? '') : ''`
abbrev pub reason_for : Verdict → Option ReviewOverride → Text
reason_for value none = []
reason_for value (some o) = if same_status o.status value then o.reason else []

-- agreeing with the AI clears an override, if there is one
agree_with_ai : Props → Controls → Controls × Option AnnotateArgs
agree_with_ai p c =
    if is_some (override_of p)
    then send nothing (record (request p) { clear_override = true })
        (record c { pending_status = none })
    else (record c { pending_status = none }, none)

-- `pickVerdict`
pick_verdict : Props → Verdict → Controls → Controls × Option AnnotateArgs
unfolding agree_with_ai
pick_verdict p value c = if same_status value p.ai_status then agree_with_ai p c else (
  record c { reason_draft = reason_for value (override_of p); pending_status = some value },
  none,
)

-- `saveOverride`
save_override : Props → Controls → Controls × Option AnnotateArgs
save_override p c = elim c.pending_status [
  | none ↦ (c, none)
  | some value ↦
      if is_empty (trim c.reason_draft)
      then (c, none)
      else send close_verdict
          (record (request p) {
            override_status = some value;
            override_reason = some (trim c.reason_draft);
          })
          c
]

-- `saveNote`
save_note : Props → Controls → Controls × Option AnnotateArgs
save_note p c =
    send close_note
      (record (request p) {
        note = some (trim c.note_draft);
        clear_note = is_empty (trim c.note_draft);
      })
      c

-- the `onSuccess` of the request that was answered
answered : Option AfterSave → Controls → Controls
answered (some close_verdict) c = record c { pending_status = none; in_flight = none }
answered (some close_note) c = record c { note_open = false; in_flight = none }
answered _ c = record c { in_flight = none }

-- What the user does, and how the server answers. `edit_*` are the text areas.
pub data Action : Type 0 where
  pick : Verdict → Action
  edit_reason edit_note : Text → Action
  save_verdict cancel_verdict reset_to_ai toggle_note save_text cancel_note : Action
  succeeded failed : Action

-- A button that is disabled while a request is pending.
abbrev unless_busy : Controls → Controls × Option AnnotateArgs → Controls × Option AnnotateArgs
unless_busy c next = if is_some c.in_flight then (c, none) else next

unfoldable pub step : Props → Action → Controls → Controls × Option AnnotateArgs
unfolding pick_verdict save_override save_note answered
step p (pick v) c = unless_busy c (pick_verdict p v c)
step p (edit_reason t) c = (record c { reason_draft = t }, none)
step p (edit_note t) c = (record c { note_draft = t }, none)
step p save_verdict c = unless_busy c (save_override p c)
step p cancel_verdict c = (record c { pending_status = none }, none)
step p reset_to_ai c = unless_busy c (
    if is_some (override_of p)
    then send nothing (record (request p) { clear_override = true }) c
    else (c, none))
step p toggle_note c =
    unless_busy c (record c { note_draft = note_of p; note_open = not c.note_open }, none)
step p save_text c = unless_busy c (if c.note_open then save_note p c else (c, none))
step p cancel_note c = (record c { note_open = false }, none)
step p succeeded c = (answered c.in_flight c, none)
step p failed c = (record c { in_flight = none }, none)

abbrev pub list_of : Option AnnotateArgs → List AnnotateArgs
list_of none = []
list_of (some args) = args ∷ []

-- A session: the AI's verdict on a finding stays, the annotation is what the last refetch brought.
-- The result holds the requests in the order in which they are sent.
unfoldable pub session :
    String
    → Verdict
    → Controls
    → List (Option FindingAnnotation × Action)
    → Controls × List AnnotateArgs
session name ai c [] = (c, [])
session name ai c ((annotation, action) ∷ rest) =
    let p : Props = record { rule_name = name; ai_status = ai; annotation = annotation } in
    let (c', sent) = step p action c in
    let (last, later) = session name ai c' rest in (last, list_of sent ++ later)
