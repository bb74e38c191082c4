-- ===== src/CasePage/Composer.antt =====
-- `InlineComposer`: replies to the applicant, and notes for the team.
use clerq.Prelude.{
  ℕ, ◌+◌, ◌≤◌, ◌≡◌, refl, Text, trim, is_empty, Bool, true, false, not, ◌&&◌, ◌||◌, Option, none,
  some, is_some, List, [], ◌∷◌, ◌++◌, length, length-append, All, All-append, if_cases, arith,
  if◌then◌else◌,
}

pub data Mode : Type 0 where
  reply note : Mode

pub record Composer : Type 0 where
  pub mode : Option Mode
  pub text : Text
  pub sending : Bool

-- the argument of `replyCase` or of `addNote`
pub record Message : Type 0 where
  pub kind : Mode
  pub case_id : ℕ
  pub body : Text

pub data Event : Type 0 where
  pick : Mode → Event
  type_text : Text → Event
  -- the button, or the key
  press_send close sent failed : Event

abbrev pub open_composer : Composer
open_composer = record { mode = none; text = []; sending = false }

-- the reply buttons are there where the case has an address
abbrev is_offered : Bool → Mode → Bool
is_offered has_email reply = has_email
is_offered has_email note = true

-- `mode === 'reply'`
abbrev is_reply : Option Mode → Bool
is_reply (some reply) = true
is_reply _ = false

-- `send`, up to its request
unfoldable pub send : ℕ → Composer → Composer × List Message
send case_id c = if is_empty (trim c.text) || c.sending then (c, []) else (
  record c { sending = true },
  record { kind = if is_reply c.mode then reply else note; case_id = case_id; body = c.text } ∷ [],
)

unfoldable pub handle : Bool → ℕ → Event → Composer → Composer × List Message
unfolding send
handle has_email case_id (pick m) c =
    if is_offered has_email m then (record c { mode = some m }, []) else (c, [])
handle has_email case_id (type_text t) c =
    if is_some c.mode then (record c { text = t }, []) else (c, [])
handle has_email case_id press_send c = if is_some c.mode then send case_id c else (c, [])
handle has_email case_id close c =
    if is_some c.mode then (record c { mode = none; text = [] }, []) else (c, [])
handle has_email case_id sent c =
    if c.sending then (record { mode = none; text = []; sending = false }, []) else (c, [])
handle has_email case_id failed c =
    if c.sending then (record c { sending = false }, []) else (c, [])

unfoldable pub run : Bool → ℕ → List Event → Composer → Composer × List Message
unfolding handle
run has_email case_id [] c = (c, [])
run has_email case_id (e ∷ es) c =
    let (c', out) = handle has_email case_id e c in
    let (end, more) = run has_email case_id es c' in (end, out ++ more)

abbrev pub count_answers : List Event → ℕ
count_answers [] = 0
count_answers (sent ∷ es) = 1 + count_answers es
count_answers (failed ∷ es) = 1 + count_answers es
count_answers (_ ∷ es) = count_answers es

-- A message of the case that is not blank, and a reply only where there is an address.
abbrev pub IsMessage : Bool → ℕ → Message → Type 0
IsMessage has_email case_id m =
    (m.case_id ≡ case_id)
    × (is_empty (trim m.body) ≡ false)
    × ((is_reply (some m.kind) && not has_email) ≡ false)

module _ (has_email : Bool) (case_id : ℕ) where
  abbrev IsComposer : Composer → Type 0
  IsComposer c = (is_reply c.mode && not has_email) ≡ false

  abbrev count_open : Composer → ℕ
  count_open c = if c.sending then 1 else 0

  abbrev IsStep : Event → Composer → Composer × List Message → Type 0
  IsStep e c (c', out) =
      IsComposer c'
      × All (IsMessage has_email case_id) out
      × (length out + count_open c ≤ count_answers (e ∷ []) + count_open c')

  handle-IsStep :
      (e : Event) (c : Composer) → IsComposer c → IsStep e c (handle has_email case_id e c)
  unfolding handle send
  handle-IsStep (pick reply) c h =
      if_cases (IsStep (pick reply) c) has_email _ _ (λ known. (ground arith, tt, omega arith))
        (λ _. (h, tt, omega arith))
  handle-IsStep (pick note) c h = (refl, tt, omega arith)
  handle-IsStep (type_text t) c h =
      if_cases (IsStep (type_text t) c) (is_some c.mode) _ _ (λ _. (h, tt, omega arith))
        (λ _. (h, tt, omega arith))
  handle-IsStep press_send c h =
      if_cases (IsStep press_send c) (is_some c.mode) _ _
        (λ _.
          if_cases (IsStep press_send c) (is_empty (trim c.text) || c.sending) _ _
            (λ _. (h, tt, omega arith))
            (λ free. (h, ((refl, ground arith, ground arith), tt), ground arith)))
        (λ _. (h, tt, omega arith))
  handle-IsStep close c h =
      if_cases (IsStep close c) (is_some c.mode) _ _ (λ _. (refl, tt, omega arith))
        (λ _. (h, tt, omega arith))
  handle-IsStep sent c h =
      if_cases (IsStep sent c) c.sending _ _ (λ busy. (refl, tt, ground arith))
        (λ _. (h, tt, omega arith))
  handle-IsStep failed c h =
      if_cases (IsStep failed c) c.sending _ _ (λ busy. (h, tt, ground arith))
        (λ _. (h, tt, omega arith))

  count_answers-cons :
      (e : Event) (es : List Event)
      → count_answers (e ∷ es) ≡ count_answers (e ∷ []) + count_answers es
  count_answers-cons (pick m) es = omega arith
  count_answers-cons (type_text t) es = omega arith
  count_answers-cons press_send es = omega arith
  count_answers-cons close es = omega arith
  count_answers-cons sent es = omega arith
  count_answers-cons failed es = omega arith

  run-IsStep :
      (es : List Event) (c : Composer)
      → IsComposer c
      → All (IsMessage has_email case_id) (run has_email case_id es c).1
        × (length (run has_email case_id es c).1 + count_open c
            ≤ count_answers es + count_open (run has_email case_id es c).0)
  unfolding run
  run-IsStep [] c h = (tt, omega arith)
  run-IsStep (e ∷ es) c h =
      let (c', out) = handle has_email case_id e c in
      let (h', now, fewer) = handle-IsStep e c h in
      let (later, fewer') = run-IsStep es c' h' in
      (
        All-append (IsMessage has_email case_id) out _ now later,
        omega (
          arith,
          fewer,
          fewer',
          length-append out (run has_email case_id es c').1,
          count_answers-cons e es,
        ),
      )

  -- Whatever is done in the composer and whenever the answers come: each message sent is one of the
  -- case and not blank, it is a reply only where the case has an address, and none is sent before
  -- the one before it was answered.
  pub run-IsMessage :
      (es : List Event)
      → All (IsMessage has_email case_id) (run has_email case_id es open_composer).1
        × (length (run has_email case_id es open_composer).1 ≤ 1 + count_answers es)
  run-IsMessage es =
      let (sound, fewer) = run-IsStep es open_composer refl in (sound, ground (arith, fewer))
