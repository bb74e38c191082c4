-- ===== src/Drawer/Resolve/Requests.antt =====
-- The requests that the controls of the drawer send.
use clerq.Prelude.{
  ◌≡◌, ◌≢◌, refl, sym, ap, subst, ◌∙◌, String, str_eq, false, Text, inl, inr, List, [], ◌∷◌, Option,
  none, some, All, All-append, arith, eq_iff, is_empty, trim, Option-cases, Bool-cases,
}
use clerq.Types.{Verdict, verdict_name}
use clerq.Review.{AnnotateArgs, Props, same_status, request}
use clerq.Review.Requests.{IsSound, clears, overrides, notes, is_empty-false}
use clerq.Drawer.Resolve.{
  Target, verdict_of, Resolve, Action, press, save_pending, reset_to_ai, save_text, edit_reason,
  amend, Turn, switch, act, Sent, sent_of, shown, step, session,
}

-- The decision being taken is not the AI's.
abbrev IsChange : Verdict → Resolve → Type 0
IsChange ai s = (t : Target) → s.pending ≡ some t → verdict_name (verdict_of t) ≢ verdict_name ai

step-IsChange :
    (p : Props) (a : Action) (s : Resolve)
    → IsChange p.ai_status s
    → IsChange p.ai_status (step p a s).0
unfolding step
step-IsChange p (press target) s h t e =
    ground (arith, eq_iff (verdict_name (verdict_of target)) (verdict_name p.ai_status), h t)
step-IsChange p _ s h t e = ground (arith, h t)

step-IsSound :
    (p : Props) (a : Action) (s : Resolve) {args : AnnotateArgs}
    → IsChange p.ai_status s
    → (step p a s).1 ≡ some args
    → IsSound p.rule_name p.ai_status args
unfolding step
step-IsSound p (press target) s h e =
    clears (ground arith) (ground arith) (ground arith) (ground arith) (ground arith)
step-IsSound p reset_to_ai s h e =
    clears (ground arith) (ground arith) (ground arith) (ground arith) (ground arith)
step-IsSound p save_pending s h e = elim (Option-cases s.pending) [
  | inl e' ↦ absurd (ground arith)
  | inr (t, e') ↦
      overrides {v = verdict_of t} {reason = trim s.reason} (ground arith) (ground arith)
        (ground arith) (ground arith) (ground arith) (h t e') (ground arith) (ground arith)
]
step-IsSound p save_text s h e =
    notes {note = trim s.note_draft} (ground arith) (ground arith) (ground arith) (ground arith)
      (elim (Bool-cases (is_empty (trim s.note_draft))) [
        | inl e' ↦ inl (ground arith)
        | inr e' ↦ inr (ground arith, is_empty-false _ e')
      ])
step-IsSound p amend s h e = absurd (ground arith)
step-IsSound p _ s h e = cc

abbrev pub IsSoundSent : Sent → Type 0
IsSoundSent x = IsSound x.about.rule_name x.about.ai_status x.args

sent_of-IsSound :
    (p : Props) (sent : Option AnnotateArgs)
    → ((args : AnnotateArgs) → sent ≡ some args → IsSound p.rule_name p.ai_status args)
    → All IsSoundSent (sent_of p sent)
sent_of-IsSound p none h = tt
sent_of-IsSound p (some args) h = (h args refl, tt)

-- Where one name has one status by the AI, a finding that comes to be shown leaves no decision
-- that is the AI's.
shown-IsChange :
    (ai : String → Verdict) (p p' : Props) (s : Resolve)
    → p.ai_status ≡ ai p.rule_name
    → p'.ai_status ≡ ai p'.rule_name
    → IsChange p.ai_status s
    → IsChange p'.ai_status (shown p p' s)
unfolding shown
shown-IsChange ai p p' s e e' h = elim (Bool-cases (str_eq p'.rule_name p.rule_name)) [
  | inl same ↦
      let same_ai : p.ai_status ≡ p'.ai_status =
        e ∙ ap ai (sym ((eq_iff p'.rule_name p.rule_name).0 same)) ∙ sym e' in
      rw same (subst (λ v. IsChange v s) same_ai h)
  | inr other ↦ rw other (λ t k. cc)
]

-- The AI's status of a finding that comes to be shown is that of its rule's name.
abbrev pub IsNamed : (String → Verdict) → Turn → Type 0
IsNamed ai (switch p) = p.ai_status ≡ ai p.rule_name
IsNamed ai (act annotation action) = Unit

session-IsSoundSent_from :
    (ai : String → Verdict) (p : Props) (s : Resolve) (turns : List Turn)
    → p.ai_status ≡ ai p.rule_name
    → All (IsNamed ai) turns
    → IsChange p.ai_status s
    → All IsSoundSent (session p s turns)
unfolding session
session-IsSoundSent_from ai p s [] e named k = tt
session-IsSoundSent_from ai p s (switch p' ∷ rest) e (e', named) k =
    session-IsSoundSent_from ai p' (shown p p' s) rest e' named (shown-IsChange ai p p' s e e' k)
session-IsSoundSent_from ai p s (act annotation action ∷ rest) e (_, named) k =
    let now : Props = record p { annotation = annotation } in
    All-append IsSoundSent (sent_of now (step now action s).1) _
      (sent_of-IsSound now (step now action s).1 (λ args q. step-IsSound now action s k q))
      (session-IsSoundSent_from ai now (step now action s).0 rest e named
        (step-IsChange now action s k))

-- Whatever the reviewer does in the drawer, and however often another finding is shown, each
-- request concerns the finding shown when it is sent, and changes one thing of it: it clears the
-- override; or it sets one, whose status is not the AI's and whose reason is not blank; or it sets
-- a note that is not blank, or clears the note. The controls begin with no decision pending, and
-- findings whose rules have one name have one status by the AI.
pub session-IsSoundSent :
    (ai : String → Verdict) (p : Props) (s : Resolve) (turns : List Turn)
    → p.ai_status ≡ ai p.rule_name
    → All (IsNamed ai) turns
    → s.pending ≡ none
    → All IsSoundSent (session p s turns)
session-IsSoundSent ai p s turns e named h =
    session-IsSoundSent_from ai p s turns e named (λ t k. cc)

-- A decision outlives the finding that it was taken for. The reviewer presses a verdict that is not
-- the AI's and gives a reason; then another finding, of a rule with the same name, is shown, on
-- which the AI's status is that very verdict: saving sends it as an override of that finding.
session-stale :
    (p p' : Props) (s : Resolve) (t : Target) (reason : Text)
    → s.in_flight ≡ none
    → same_status (verdict_of t) p.ai_status ≡ false
    → p'.rule_name ≡ p.rule_name
    → p'.ai_status ≡ verdict_of t
    → is_empty (trim reason) ≡ false
    → session p s (
        act p.annotation (press t)
        ∷ act p.annotation (edit_reason reason)
        ∷ switch p'
        ∷ act p'.annotation save_pending
        ∷ [])
      ≡ record {
        about = p';
        args = record (request p') {
          override_status = some p'.ai_status;
          override_reason = some (trim reason);
        };
      }
        ∷ []
unfolding session shown step
session-stale p p' s t reason free changes same_name same_ai written =
    ground (arith, eq_iff p'.rule_name p.rule_name)
