-- ===== src/Drawer/Resolve.antt =====
-- `ResolveActions`: the reviewer's controls for the finding that the drawer shows. As in
-- frontend/src/pages/ReportPage.tsx a step takes what the user or the server does to the state and
-- to the request that it sends; here the finding may change too.
use clerq.Prelude.{
  String, Text, trim, is_empty, str_eq, Bool, true, false, not, Option, none, some, List, [], ◌∷◌,
  ◌++◌, get_or, is_some, then_get, if◌then◌else◌,
}
use clerq.Types.{Verdict, ReviewOverride, FindingAnnotation}
use clerq.Review.{AnnotateArgs, Props, override_of, same_status, request, note_of, reason_for}
pub mod Requests

-- the target of a decision
pub data Target : Type 0 where
  pass fail : Target

abbrev pub verdict_of : Target → Verdict
verdict_of pass = Verdict.pass
verdict_of fail = Verdict.fail

-- what the pending request's `onSuccess` does, before it tells the drawer
pub data AfterSave : Type 0 where
  close_pending close_note nothing : AfterSave

-- the transient editors, and the request that is not answered yet
pub record Resolve : Type 0 where
  pub pending : Option Target
  pub reason : Text
  pub note_open : Bool
  pub note_draft : Text
  pub in_flight : Option AfterSave

abbrev send : AfterSave → AnnotateArgs → Resolve → Resolve × Option AnnotateArgs
send after args s = (record s { in_flight = some after }, some args)

abbrev agree : Props → Resolve → Resolve × Option AnnotateArgs
agree p s =
    if is_some (override_of p)
    then send nothing (record (request p) { clear_override = true }) (record s { pending = none })
    else (record s { pending = none }, none)

-- `decide`
unfoldable pub decide : Props → Target → Resolve → Resolve × Option AnnotateArgs
decide p target s = if same_status (verdict_of target) p.ai_status then agree p s else (
  record s { reason = reason_for (verdict_of target) (override_of p); pending = some target },
  none,
)

-- `saveDecision`
unfoldable pub save_decision : Props → Resolve → Resolve × Option AnnotateArgs
save_decision p s = elim s.pending [
  | none ↦ (s, none)
  | some target ↦
      if is_empty (trim s.reason)
      then (s, none)
      else send close_pending
          (record (request p) {
            override_status = some (verdict_of target);
            override_reason = some (trim s.reason);
          })
          s
]

-- `saveNote`
unfoldable pub save_note : Props → Resolve → Resolve × Option AnnotateArgs
save_note p s =
    send close_note
      (record (request p) {
        note = some (trim s.note_draft);
        clear_note = is_empty (trim s.note_draft);
      })
      s

-- The effect that clears the editors. It runs when the rule's name changes, so another finding of
-- a rule with the same name finds them as they are.
unfoldable pub shown : Props → Props → Resolve → Resolve
shown before p s =
    if str_eq p.rule_name before.rule_name
    then s
    else record s { pending = none; reason = []; note_open = false; note_draft = note_of p }

unfoldable pub answered : Option AfterSave → Resolve → Resolve
answered (some close_pending) s = record s { pending = none; in_flight = none }
answered (some close_note) s = record s { note_open = false; in_flight = none }
answered _ s = record s { in_flight = none }

pub data Action : Type 0 where
  press : Target → Action
  edit_reason edit_note : Text → Action
  save_pending cancel reset_to_ai amend save_text cancel_note succeeded failed : Action

abbrev unless_busy : Resolve → Resolve × Option AnnotateArgs → Resolve × Option AnnotateArgs
unless_busy s next = if is_some s.in_flight then (s, none) else next

unfoldable pub step : Props → Action → Resolve → Resolve × Option AnnotateArgs
unfolding decide save_decision save_note answered
step p (press target) s = unless_busy s (decide p target s)
step p (edit_reason t) s = (record s { reason = t }, none)
step p (edit_note t) s = (record s { note_draft = t }, none)
step p save_pending s = unless_busy s (save_decision p s)
step p cancel s = (record s { pending = none }, none)
step p reset_to_ai s = unless_busy s (
    if is_some (override_of p)
    then send nothing (record (request p) { clear_override = true }) s
    else (s, none))
step p amend s =
    unless_busy s
      (record s { note_draft = note_of p; note_open = not s.note_open; pending = none }, none)
step p save_text s = unless_busy s (if s.note_open then save_note p s else (s, none))
step p cancel_note s = (record s { note_open = false }, none)
step p succeeded s = (answered s.in_flight s, none)
step p failed s = (record s { in_flight = none }, none)

abbrev pub fresh : Resolve
fresh = record { pending = none; reason = []; note_open = false; note_draft = []; in_flight = none }

-- A turn of the drawer: it shows another finding, or a later result of the same, or something is done to the one shown, under the
-- annotation that the last refetch brought.
pub data Turn : Type 0 where
  switch : Props → Turn
  act : Option FindingAnnotation → Action → Turn

-- a request, with the finding shown when it was sent
pub record Sent : Type 0 where
  pub about : Props
  pub args : AnnotateArgs

abbrev pub sent_of : Props → Option AnnotateArgs → List Sent
sent_of p none = []
sent_of p (some args) = record { about = p; args = args } ∷ []

unfoldable pub session : Props → Resolve → List Turn → List Sent
unfolding shown step
session p s [] = []
session p s (switch p' ∷ rest) = session p' (shown p p' s) rest
session p s (act annotation action ∷ rest) =
    let now = record p { annotation = annotation } in
    let (s', sent) = step now action s in sent_of now sent ++ session now s' rest
