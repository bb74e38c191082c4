-- ===== src/Review/Requests.antt =====
-- The requests that the controls send.
use clerq.Prelude.{
  ℕ, suc, ◌+◌, if◌then◌else◌, ◌≤◌, ◌≡◌, ◌≢◌, refl, ◌⊎◌, inl, inr, String, Text, true, false, List,
  [], ◌∷◌, Option, none, some, All, All-append, length, length-append, arith, eq_iff, is_some,
  is_empty, trim, Option-cases, Bool-cases,
}
use clerq.Types.{Verdict, verdict_name, FindingAnnotation}
use clerq.Review.{
  AnnotateArgs, Controls, Props, Action, pick, save_verdict, reset_to_ai, toggle_note, save_text,
  succeeded, failed, closed, list_of, step, session,
}

-- The verdict being changed to is not the AI's.
abbrev pub IsChange : Verdict → Controls → Type 0
IsChange ai c = (v : Verdict) → c.pending_status ≡ some v → verdict_name v ≢ verdict_name ai

-- A request changes one thing: it clears the override, sets one other than the AI's verdict with a
-- reason, or sets or clears the note.
pub data IsSound (name : String) (ai : Verdict) (args : AnnotateArgs) : Type 0 where
  clears :
      args.rule_name ≡ name
      → args.note ≡ none
      → args.clear_note ≡ false
      → args.override_status ≡ none
      → args.clear_override ≡ true
      → IsSound name ai args
  overrides :
      {v : Verdict} {reason : Text}
      → args.rule_name ≡ name
      → args.note ≡ none
      → args.clear_note ≡ false
      → args.clear_override ≡ false
      → args.override_status ≡ some v
      → verdict_name v ≢ verdict_name ai
      → args.override_reason ≡ some reason
      → reason ≢ []
      → IsSound name ai args
  notes :
      {note : Text}
      → args.rule_name ≡ name
      → args.note ≡ some note
      → args.override_status ≡ none
      → args.clear_override ≡ false
      → ((args.clear_note ≡ true) × (note ≡ [])) ⊎ ((args.clear_note ≡ false) × (note ≢ []))
      → IsSound name ai args

step-IsChange :
    (p : Props) (a : Action) (c : Controls)
    → IsChange p.ai_status c
    → IsChange p.ai_status (step p a c).0
unfolding step
step-IsChange p (Action.pick v) c h w e =
    ground (arith, eq_iff (verdict_name v) (verdict_name p.ai_status), h w)
step-IsChange p _ c h w e = ground (arith, h w)

pub is_empty-false : (t : Text) → is_empty t ≡ false → t ≢ []
is_empty-false t h e = ground arith

step-IsSound :
    (p : Props) (a : Action) (c : Controls) {args : AnnotateArgs}
    → IsChange p.ai_status c
    → (step p a c).1 ≡ some args
    → IsSound p.rule_name p.ai_status args
unfolding step
step-IsSound p (pick v) c h e =
    clears (ground arith) (ground arith) (ground arith) (ground arith) (ground arith)
step-IsSound p reset_to_ai c h e =
    clears (ground arith) (ground arith) (ground arith) (ground arith) (ground arith)
step-IsSound p save_verdict c h e = elim (Option-cases c.pending_status) [
  | inl e' ↦ absurd (ground arith)
  | inr (v, e') ↦
      overrides {v = v} {reason = trim c.reason_draft} (ground arith) (ground arith) (ground arith)
        (ground arith) (ground arith) (h v e') (ground arith) (ground arith)
]
step-IsSound p save_text c h e =
    notes {note = trim c.note_draft} (ground arith) (ground arith) (ground arith) (ground arith)
      (elim (Bool-cases (is_empty (trim c.note_draft))) [
        | inl e' ↦ inl (ground arith)
        | inr e' ↦ inr (ground arith, is_empty-false _ e')
      ])
step-IsSound p toggle_note c h e = absurd (ground arith)
step-IsSound p _ c h e = cc

list_of-IsSound :
    (p : Props) (sent : Option AnnotateArgs)
    → ((args : AnnotateArgs) → sent ≡ some args → IsSound p.rule_name p.ai_status args)
    → All (IsSound p.rule_name p.ai_status) (list_of sent)
list_of-IsSound p none h = tt
list_of-IsSound p (some args) h = (h args refl, tt)

session-IsSound_from :
    (name : String) (ai : Verdict) (c : Controls)
    (actions : List (Option FindingAnnotation × Action))
    → IsChange ai c
    → All (IsSound name ai) (session name ai c actions).1
unfolding session
session-IsSound_from name ai c [] h = tt
session-IsSound_from name ai c ((annotation, action) ∷ rest) h =
    let p : Props = record { rule_name = name; ai_status = ai; annotation = annotation } in
    let later =
      session-IsSound_from name ai (step p action c).0 rest (step-IsChange p action c h) in
    All-append (IsSound name ai) (list_of (step p action c).1) _
      (list_of-IsSound p (step p action c).1 (λ args e. step-IsSound p action c h e)) later

-- Whatever the user does with the controls of a finding, and whatever the refetches bring, each
-- request changes one thing: it clears the override; or it sets one, whose status is not the AI's
-- and whose reason is not blank; or it sets a note that is not blank, or clears the note.
pub session-IsSound :
    (name : String) (ai : Verdict) (actions : List (Option FindingAnnotation × Action))
    → All (IsSound name ai) (session name ai closed actions).1
session-IsSound name ai actions = session-IsSound_from name ai closed actions (λ v e. cc)

-- how often the server answered
abbrev pub answers : List (Option FindingAnnotation × Action) → ℕ
answers [] = 0
answers ((_, succeeded) ∷ rest) = suc (answers rest)
answers ((_, failed) ∷ rest) = suc (answers rest)
answers ((_, _) ∷ rest) = answers rest

abbrev pending : Controls → ℕ
pending c = if is_some c.in_flight then 1 else 0

sent_of_step :
    (p : Props) (a : Action) (annotation : Option FindingAnnotation) (c : Controls)
    (rest : List (Option FindingAnnotation × Action))
    → length (list_of (step p a c).1) + pending c + answers rest
      ≤ pending (step p a c).0 + answers ((annotation, a) ∷ rest)
unfolding step
sent_of_step p (pick v) annotation c rest = ground arith
sent_of_step p _ annotation c rest = ground arith

requests_le :
    (name : String) (ai : Verdict) (c : Controls)
    (actions : List (Option FindingAnnotation × Action))
    → length (session name ai c actions).1 + pending c ≤ answers actions + 1
unfolding session
requests_le name ai c [] = ground arith
requests_le name ai c ((annotation, action) ∷ rest) =
    let p : Props = record { rule_name = name; ai_status = ai; annotation = annotation } in
    let c' = (step p action c).0 in
    omega (
      arith,
      length-append (list_of (step p action c).1) (session name ai c' rest).1,
      sent_of_step p action annotation c rest,
      requests_le name ai c' rest,
    )

-- The controls wait for the answer to a request before they send the next: in any session, at most
-- one request more is sent than the server has answered.
length-session_le :
    (name : String) (ai : Verdict) (actions : List (Option FindingAnnotation × Action))
    → length (session name ai closed actions).1 ≤ answers actions + 1
length-session_le name ai actions = omega (arith, requests_le name ai closed actions)
