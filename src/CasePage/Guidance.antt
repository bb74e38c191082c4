-- ===== src/CasePage/Guidance.antt =====
-- Which run the page reports on, what it proposes, and what it counts as met.
use clerq.Prelude.Last.{IsLastOf, last_of, is_some-last}
use clerq.Prelude.{
  ◌≤◌, ◌≡◌, ◌≢◌, then_get, refl, ap, String, str_eq, eq_iff, Bool, true, false, not, ◌&&◌, Option,
  none, some, is_some, List, [], ◌∷◌, find, get_or, length, every, some_of, ◌⊎◌, inl, inr,
  Bool-cases, Option-cases, arith, if_cases,
}
use clerq.CasePage.{
  LastResult, TimelineEvent, filled, has_documents, review_and_accept, reply_or_reject,
  review_flagged, ChecklistItem, CaseData, is_verdict_run, latest_verdict_run, latest_overall,
  is_closed, NextStep, ask_for, run_validation, missing_item, step_of_verdict, next_step, satisfied,
  all_met,
}

-- The run whose verdict the page shows is the last one in the timeline that is completed and has a
-- verdict, whatever stands after it; and there is none just where the timeline has no such run.
latest_verdict_run-IsLastOf :
    (d : CaseData) → IsLastOf is_verdict_run d.timeline (latest_verdict_run d)
unfolding latest_verdict_run
latest_verdict_run-IsLastOf d = last_of is_verdict_run d.timeline

-- A missing document that is required.
abbrev pub is_needed : ChecklistItem → Bool
is_needed c = str_eq c.status "missing" && c.required

-- Some such document can be asked for: there is an address.
abbrev pub can_ask : CaseData → Bool
can_ask d = is_some (filled d.contact_email) && some_of is_needed d.checklist

-- the verdict of a run, where there is one
abbrev pub verdict_of : Option TimelineEvent → Option String
verdict_of o = then_get o (λ e. then_get e.last_result (λ (r : LastResult). r.overall))

-- What each proposal asks of an open case whose last verdict is `v`.
abbrev pub IsDue : CaseData → Option String → NextStep → Type 0
IsDue d v (ask_for name) =
    (some_of (λ (c : ChecklistItem). str_eq c.document_type name && is_needed c) d.checklist ≡ true)
    × (is_some (filled d.contact_email) ≡ true)
IsDue d v review_and_accept = (can_ask d ≡ false) × (v ≡ some "pass")
IsDue d v reply_or_reject = (can_ask d ≡ false) × (v ≡ some "fail")
IsDue d v review_flagged = (can_ask d ≡ false) × (v ≡ some "needs_review")
IsDue d v run_validation =
    (can_ask d ≡ false) × (has_documents d ≡ true) × (some_of is_verdict_run d.timeline ≡ false)

-- There is nothing to ask for, nothing that fits the verdict, and nothing to validate.
abbrev pub IsQuiet : CaseData → Option String → Type 0
IsQuiet d v =
    (can_ask d ≡ false)
    × (v ≢ some "pass")
    × (v ≢ some "fail")
    × (v ≢ some "needs_review")
    × ((has_documents d ≡ false) ⊎ (some_of is_verdict_run d.timeline ≡ true))

abbrev IsDueStep : CaseData → Option String → Option NextStep → Type 0
IsDueStep d v none = IsQuiet d v
IsDueStep d v (some n) = IsDue d v n

abbrev pub IsProposal : CaseData → Option String → Option NextStep → Type 0
IsProposal d v none = (is_closed d ≡ true) ⊎ IsQuiet d v
IsProposal d v (some n) = (is_closed d ≡ false) × IsDue d v n

overall_of :
    (o : Option String) (v : String)
    → str_eq "" v ≡ false
    → str_eq (get_or o "") v ≡ true
    → o ≡ some v
overall_of none v n h = cc
overall_of (some w) v n h = ap (λ u. some u) ((eq_iff w v).0 h)

find_item :
    (p : ChecklistItem → Bool) (xs : List ChecklistItem) (x : ChecklistItem)
    → find p xs ≡ some x
    → some_of (λ (c : ChecklistItem). str_eq c.document_type x.document_type && p c) xs ≡ true
find_item p [] x h = cc
find_item p (y ∷ xs) x h = elim (Bool-cases (p y)) [
  | inl passes ↦ ground (arith, eq_iff y.document_type x.document_type)
  | inr fails ↦ ground (arith, find_item p xs x)
]

not_overall : (o : Option String) (v : String) → str_eq (get_or o "") v ≡ false → o ≢ some v
not_overall none v h e = cc
not_overall (some w) v h e = ground (arith, eq_iff w v)

find-none :
    (p : ChecklistItem → Bool) (xs : List ChecklistItem) → find p xs ≡ none → some_of p xs ≡ false
find-none p [] h = refl
find-none p (y ∷ xs) h = ground (arith, find-none p xs)

step_of_verdict-IsDueStep :
    (d : CaseData) → can_ask d ≡ false → IsDueStep d (latest_overall d) (step_of_verdict d)
unfolding step_of_verdict
step_of_verdict-IsDueStep d idle =
    let v = latest_overall d in
    let seen =
      is_some-last is_verdict_run d.timeline (latest_verdict_run d)
        (latest_verdict_run-IsLastOf d) in
    let overall = get_or v "" in
    if_cases (IsDueStep d v) (str_eq overall "pass") _ _ (λ h. (idle, overall_of v "pass" refl h))
      (λ a.
        if_cases (IsDueStep d v) (str_eq overall "fail") _ _
          (λ h. (idle, overall_of v "fail" refl h))
          (λ b.
            if_cases (IsDueStep d v) (str_eq overall "needs_review") _ _
              (λ h. (idle, overall_of v "needs_review" refl h))
              (λ c.
                if_cases (IsDueStep d v) (has_documents d && not (is_some (latest_verdict_run d))) _
                  _ (λ h. (idle, ground arith, ground arith))
                  (λ h. (
                    idle,
                    not_overall v "pass" a,
                    not_overall v "fail" b,
                    not_overall v "needs_review" c,
                    elim (Bool-cases (has_documents d)) [
                      | inl some_there ↦ inr (ground arith)
                      | inr bare ↦ inl bare
                    ],
                  )))))

IsProposal-due :
    (d : CaseData) (v : Option String) (o : Option NextStep)
    → is_closed d ≡ false
    → IsDueStep d v o
    → IsProposal d v o
IsProposal-due d v none k h = inr h
IsProposal-due d v (some n) k h = (k, h)

next_step-IsProposal_latest : (d : CaseData) → IsProposal d (latest_overall d) (next_step d)
unfolding next_step
next_step-IsProposal_latest d =
    let v = latest_overall d in
    if_cases (IsProposal d v) (is_closed d) _ _ (λ closed. inl closed)
      (λ open_case.
        let otherwise : can_ask d ≡ false → IsProposal d v (step_of_verdict d) = λ idle.
          IsProposal-due d v (step_of_verdict d) open_case (step_of_verdict-IsDueStep d idle) in
        elim (Option-cases (missing_item d)) [
          | inl met ↦
              let idle = find-none is_needed d.checklist met in simp met (otherwise (ground arith))
          | inr (item, missing) ↦ simp missing (
              if_cases (IsProposal d v) (is_some (filled d.contact_email)) _ _
                (λ known. (open_case, (find_item is_needed d.checklist item missing, known)))
                (λ unknown. otherwise (ground arith)))
        ])

-- What the page proposes is due, and it proposes something whenever something is. With the verdict
-- of the last completed run of the timeline that has one: a document is asked for only where one of
-- its type is required and missing and there is an address; where none can be asked for, what fits
-- the verdict is proposed, or a validation, where there are documents and no such run; nothing, only
-- for a closed case, or where none of all this holds. A closed case has no proposal.
pub next_step-IsProposal :
    (d : CaseData)
    → (o : Option TimelineEvent) × IsLastOf is_verdict_run d.timeline o
      × IsProposal d (verdict_of o) (next_step d)
unfolding latest_overall
next_step-IsProposal d =
    (latest_verdict_run d, latest_verdict_run-IsLastOf d, next_step-IsProposal_latest d)

-- All requirements count as met just where each item is satisfied.
all_met_iff :
    (checklist : List ChecklistItem)
    → (all_met checklist ≡ every (λ (c : ChecklistItem). str_eq c.status "satisfied") checklist)
      × (satisfied checklist ≤ length checklist)
unfolding all_met
all_met_iff [] = (ground arith, omega arith)
all_met_iff (c ∷ cs) = (ground (arith, all_met_iff cs), ground (arith, all_met_iff cs))
