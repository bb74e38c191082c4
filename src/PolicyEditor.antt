-- ===== src/PolicyEditor.antt =====
-- frontend/src/pages/PolicyEditor.tsx: the policy's draft and its saving, and the order of its rules.
--
-- The state is what the page holds once the policy has been loaded. A step is an edit, a press on
-- the save button, the server's answer to the oldest save that is not yet answered, or the end of
-- one of the two-second timers that take "saved" off the button.
pub mod Saving
pub mod Order
mod Examples
use clerq.Prelude.{
  ℕ, zero, suc, ◌-◌, String, Text, trim, Bool, true, false, Option, none, some, List, [], ◌∷◌, ◌++◌,
  get_or, map_get, then_get, is_some, is_empty, if◌then◌else◌, ◌==◌,
}
use clerq.Types
use clerq.Types.{Policy}

-- the fields of the form
pub record Drafts : Type 0 where
  pub name : Text
  pub brief : Text
  pub email_reply_mode : String
  pub email_pass_message : Text
  pub email_fail_message : Text

-- the body of the update request
pub record Update : Type 0 where
  pub name : Text
  pub brief : Text
  pub email_reply_mode : String
  pub email_pass_message : Option Text
  pub email_fail_message : Option Text

pub data SaveState : Type 0 where
  idle saving saved : SaveState

-- `pending` are the updates sent and not answered, the oldest first; `timers` counts the timers;
-- `stored` is the server's side, the last update that it accepted.
pub record Editor : Type 0 where
  pub drafts : Drafts
  pub dirty : Bool
  pub save_state : SaveState
  pub pending : List Update
  pub timers : ℕ
  pub stored : Option Update

-- the draft that a loaded policy begins with
unfoldable pub drafts_of : Policy → Drafts
drafts_of policy = record {
  name = policy.name;
  brief = policy.brief;
  email_reply_mode = get_or policy.email_reply_mode "always";
  email_pass_message = get_or policy.email_pass_message [];
  email_fail_message = get_or policy.email_fail_message [];
}

unfoldable pub open_editor : Policy → Editor
open_editor policy = record {
  drafts = drafts_of policy;
  dirty = false;
  save_state = idle;
  pending = [];
  timers = 0;
  stored = none;
}

-- `text || null`
abbrev or_null : Text → Option Text
or_null [] = none
or_null (c ∷ s) = some (c ∷ s)

-- `text || other`
abbrev or_other : Text → Text → Text
or_other [] other = other
or_other (c ∷ s) other = c ∷ s

-- The body that `handleSave` sends, with the name that the policy has at the time.
unfoldable pub update_of : Text → Drafts → Update
update_of policy_name d = record {
  name = or_other (trim d.name) policy_name;
  brief = d.brief;
  email_reply_mode = d.email_reply_mode;
  email_pass_message = or_null d.email_pass_message;
  email_fail_message = or_null d.email_fail_message;
}

pub data Edit : Type 0 where
  set_name set_brief set_pass_message set_fail_message : Text → Edit
  set_reply_mode : String → Edit

unfoldable pub edited : Edit → Drafts → Drafts
edited (set_name t) d = record d { name = t }
edited (set_brief t) d = record d { brief = t }
edited (set_pass_message t) d = record d { email_pass_message = t }
edited (set_fail_message t) d = record d { email_fail_message = t }
edited (set_reply_mode mode) d = record d { email_reply_mode = mode }

-- an edit, and `markDirty`
unfoldable pub on_edit : Edit → Editor → Editor
on_edit ed e = record e { drafts = edited ed e.drafts; dirty = true; save_state = idle }

-- `handleSave` up to its `await`
unfoldable pub press_save : Text → Editor → Editor
press_save policy_name e = elim e.save_state [
  | saving ↦ e
  | _ ↦ record e { save_state = saving; pending = e.pending ++ update_of policy_name e.drafts ∷ [] }
]

-- behind the `await`: the server accepted the oldest pending update
unfoldable pub on_saved : Editor → Editor
on_saved e = elim e.pending [
  | [] ↦ e
  | u ∷ us ↦ record e {
    dirty = false;
    save_state = saved;
    pending = us;
    timers = suc e.timers;
    stored = some u;
  }
]

-- the `catch`
unfoldable pub on_save_failed : Editor → Editor
on_save_failed e = elim e.pending [ [] ↦ e | u ∷ us ↦ record e { save_state = idle; pending = us } ]

-- A timer ends. It does not look at what the state has become since it was set.
unfoldable pub on_timer : Editor → Editor
on_timer e = elim e.timers [ zero ↦ e | suc n ↦ record e { save_state = idle; timers = n } ]

pub data Event : Type 0 where
  edit : Edit → Event
  save : Text → Event
  save_succeeded save_failed timer_ended : Event

unfoldable pub step : Event → Editor → Editor
unfolding on_edit press_save on_saved on_save_failed on_timer
step (edit ed) e = on_edit ed e
step (save policy_name) e = press_save policy_name e
step save_succeeded e = on_saved e
step save_failed e = on_save_failed e
step timer_ended e = on_timer e

unfoldable pub run : List Event → Editor → Editor
unfolding step
run [] e = e
run (x ∷ xs) e = run xs (step x e)

pub data Direction : Type 0 where
  up down : Direction

-- `ids.indexOf(id)`
unfoldable pub index_of : ℕ → List ℕ → Option ℕ
index_of id [] = none
index_of id (x ∷ xs) = if x == id then some 0 else map_get (index_of id xs) suc

-- `[ids[i], ids[i + 1]] = [ids[i + 1], ids[i]]`, which the code does only where both exist
unfoldable pub swap_next : ℕ → List ℕ → List ℕ
swap_next i [] = []
swap_next i (x ∷ []) = x ∷ []
swap_next zero (x ∷ y ∷ ys) = y ∷ x ∷ ys
swap_next (suc i) (x ∷ y ∷ ys) = x ∷ swap_next i (y ∷ ys)

abbrev moved : Direction → ℕ → List ℕ → List ℕ
moved up zero ids = ids
moved up (suc i) ids = swap_next i ids
moved down i ids = swap_next i ids

-- `moveRule`: the order that it sends. Only a rule of the list has the buttons, so there is no
-- order for any other.
unfoldable pub move_rule : List ℕ → ℕ → Direction → Option (List ℕ)
unfolding index_of swap_next
move_rule ids id direction = map_get (index_of id ids) (λ i. moved direction i ids)
