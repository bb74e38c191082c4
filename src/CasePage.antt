-- ===== src/CasePage.antt =====
-- frontend/src/pages/CaseDetailPage.tsx: what the page of a case shows and proposes. A date's text
-- is left to the browser; `toUpperCase` is a parameter.
pub mod Guidance
pub mod Composer
mod Examples
use clerq.Prelude.{
  ℕ, ◌==◌, String, str_eq, Text, codes, is_empty, is_space, Bool, true, false, not, ◌&&◌, ◌||◌,
  Option, none, some, is_some, List, [], ◌∷◌, ◌++◌, find, keep, map_get, then_get, get_or, or_else,
  length, if◌then◌else◌,
}
use mathlib.Core.List.{reverse}
use text.Mathlib.Text.{starts_with}

pub data EventKind : Type 0 where
  email run : EventKind

pub record LastResult : Type 0 where
  pub kind : String
  pub overall : Option String

-- `TimelineEvent`, as far as it is read here
pub record TimelineEvent : Type 0 where
  pub kind : EventKind
  pub id : ℕ
  pub status : Option String
  pub last_result : Option LastResult

pub record ChecklistItem : Type 0 where
  pub document_type : String
  pub required : Bool
  pub status : String

pub record CaseData : Type 0 where
  pub id : ℕ
  pub status : String
  pub name : Option Text
  pub contact_name : Option Text
  pub contact_email : Option Text
  pub checklist : List ChecklistItem
  pub timeline : List TimelineEvent
  -- the ids of the documents
  pub documents : List ℕ

-- a text that a test takes for true
abbrev pub filled : Option Text → Option Text
filled none = none
filled (some s) = if is_empty s then none else some s

-- `initials`: the first character before a space or an at sign
unfoldable pub initials : (Text → Text) → Option Text → Option Text → Text
initials upper name mail = elim (or_else (filled name) (filled mail)) [
  | some (c ∷ s) ↦ if is_space c || c == b'@' then codes "?" else upper (c ∷ [])
  | _ ↦ codes "?"
]

-- a completed run with a verdict
abbrev pub is_verdict_run : TimelineEvent → Bool
is_verdict_run e = elim e.kind [
  | email ↦ false
  | run ↦
      str_eq (get_or e.status "") "completed"
      && str_eq (get_or (map_get e.last_result (λ (r : LastResult). r.kind)) "") "verdict"
]

-- `latestVerdictRun`
unfoldable pub latest_verdict_run : CaseData → Option TimelineEvent
latest_verdict_run d = find is_verdict_run (reverse d.timeline)

-- `latestOverall`
unfoldable pub latest_overall : CaseData → Option String
unfolding latest_verdict_run
latest_overall d =
    then_get (latest_verdict_run d) (λ e. then_get e.last_result (λ (r : LastResult). r.overall))

-- `isClosed`
abbrev pub is_closed : CaseData → Bool
is_closed d = starts_with d.status "closed_"

-- `title`, with the text of a number
unfoldable pub title : (ℕ → Text) → CaseData → Text
title show_id d =
    get_or (or_else (filled d.contact_name) (or_else (filled d.contact_email) (filled d.name)))
      (show_id d.id)

-- What to do next; a missing document is asked for by the name of its type.
pub data NextStep : Type 0 where
  ask_for : String → NextStep
  review_and_accept reply_or_reject review_flagged run_validation : NextStep

abbrev pub missing_item : CaseData → Option ChecklistItem
missing_item d = find (λ (c : ChecklistItem). str_eq c.status "missing" && c.required) d.checklist

-- `cd.documents.length > 0`
abbrev pub has_documents : CaseData → Bool
has_documents d = elim d.documents [ [] ↦ false | _ ↦ true ]

-- the steps after the one on a missing document
unfoldable pub step_of_verdict : CaseData → Option NextStep
unfolding latest_overall latest_verdict_run
step_of_verdict d =
    let overall = get_or (latest_overall d) "" in
    if str_eq overall "pass"
    then some review_and_accept
    else if str_eq overall "fail"
    then some reply_or_reject
    else if str_eq overall "needs_review"
    then some review_flagged
    else if has_documents d && not (is_some (latest_verdict_run d))
    then some run_validation
    else none

-- `nextStep`
unfoldable pub next_step : CaseData → Option NextStep
unfolding step_of_verdict
next_step d = if is_closed d then none else elim (missing_item d) [
  | none ↦ step_of_verdict d
  | some item ↦
      if is_some (filled d.contact_email)
      then some (ask_for item.document_type)
      else step_of_verdict d
]

-- the review drawer
pub record Review : Type 0 where
  pub review_open : Bool
  pub doc_type : Option ℕ

-- `openReview`
unfoldable pub open_review : CaseData → Option ℕ → Review → Review
unfolding latest_verdict_run
open_review d doc_type r = elim (latest_verdict_run d) [
  | none ↦ r
  | some e ↦ if e.id == 0 then r else record { review_open = true; doc_type = doc_type }
]

-- `satisfied`, `total` and `allMet` of the `RequirementsPanel`
abbrev pub satisfied : List ChecklistItem → ℕ
satisfied checklist = length (keep (λ (c : ChecklistItem). str_eq c.status "satisfied") checklist)

unfoldable pub all_met : List ChecklistItem → Bool
all_met checklist = satisfied checklist == length checklist
