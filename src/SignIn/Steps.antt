-- ===== src/SignIn/Steps.antt =====
-- The states that the log-in page can be in, and the requests that it sends from them.
use clerq.Prelude.{
  ℕ, suc, ◌+◌, ◌≤◌, ◌≡◌, refl, ap, Text, trim, is_empty, true, false, not, ◌&&◌, ◌||◌, Option, none,
  some, is_some, List, [], ◌∷◌, length, length-append, length-take_le, All, All-append, All-take,
  ◌⊎◌, inl, inr, Bool-cases, Option-cases, arith, if_cases, if◌then◌else◌,
}
use clerq.Prelude.Trim.{length-trim, All-trim}
use clerq.SignIn.{
  Step, credentials, mfa, SignIn, Login, Texts, Answer, accepted, refused, Event, type_email,
  type_password, type_code, press_sign_in, press_verify, go_back, switch_mode, answered, open_page,
  is_digit, digits, handle_mfa_input, on_credentials, on_mfa, on_answer, is_code_required, message,
  submit, at_credentials, verify_disabled, handle, step_page, run,
}

abbrev AreDigits : Text → Type 0
AreDigits = All (λ c. is_digit c ≡ true)

digits-AreDigits : (s : Text) → AreDigits (digits s)
digits-AreDigits [] = tt
digits-AreDigits (c ∷ s) = elim (Bool-cases (is_digit c)) [
  | inl digit ↦ rw digit (digit, digits-AreDigits s)
  | inr other ↦ rw other (digits-AreDigits s)
]

digits-same : (s : Text) → AreDigits s → digits s ≡ s
digits-same [] h = refl
digits-same (c ∷ s) (p, h) = rw p (rw (digits-same s h) refl)

-- The code typed fits its mode, the first step holds none, and the page is busy just while a
-- request is open.
pub record IsPage (IsCap : ℕ → Type 0) (s : SignIn) : Type 0 where
  pub by_hand : s.use_recovery ≡ true → All IsCap s.mfa_code
  pub by_app : s.use_recovery ≡ false → AreDigits s.mfa_code
  pub short : length s.mfa_code ≤ (if s.use_recovery then 11 else 6)
  pub first : at_credentials s.step ≡ true → (s.mfa_code ≡ []) × (s.use_recovery ≡ false)
  pub busy : s.submitting ≡ is_some s.pending

-- A request of the second step has the six digits of an app, or a recovery code of at most eleven
-- characters, trimmed and in capitals.
abbrev pub IsCode : (ℕ → Type 0) → Texts → Option Text → Type 0
IsCode IsCap x none = Unit
IsCode IsCap x (some c) =
    (AreDigits c × (length c ≡ 6))
    ⊎ (All IsCap c × (length c ≤ 11) × ((m : Text) × (length m ≤ 11) × (c ≡ x.upper (trim m))))

-- `toUpperCase`: each character of its result is a capital or has none, and a text of such
-- characters is left as it is.
pub record IsUpper (IsCap : ℕ → Type 0) (upper : Text → Text) : Type 0 where
  pub capital : (s : Text) → All IsCap (upper s)
  pub same : (s : Text) → All IsCap s → upper s ≡ s

module _ (IsCap : ℕ → Type 0) (x : Texts) (up : IsUpper IsCap x.upper) where
  handle_mfa_input-IsPage :
      (v : Text) (s : SignIn)
      → at_credentials s.step ≡ false
      → IsPage IsCap s
      → IsPage IsCap (handle_mfa_input x v s)
  unfolding handle_mfa_input
  handle_mfa_input-IsPage v s n h = elim (Bool-cases s.use_recovery) [
    | inl recovery ↦ rw recovery (record {
      by_hand = λ k. All-take IsCap 11 (x.upper v) (up.capital v);
      by_app = λ k. absurd (ground arith);
      short = ground (arith, length-take_le 11 (x.upper v));
      first = λ k. absurd (ground arith);
      busy = h.busy;
    })
    | inr app ↦ rw app (record {
      by_hand = λ k. absurd (ground arith);
      by_app = λ k. All-take (λ c. is_digit c ≡ true) 6 (digits v) (digits-AreDigits v);
      short = ground (arith, length-take_le 6 (digits v));
      first = λ k. absurd (ground arith);
      busy = h.busy;
    })
  ]

  on_answer-IsPage :
      (p : Step) (a : Answer) (s : SignIn) → IsPage IsCap s → IsPage IsCap (on_answer x p a s)
  unfolding on_answer
  on_answer-IsPage p accepted s h = record {
    by_hand = h.by_hand;
    by_app = h.by_app;
    short = h.short;
    first = h.first;
    busy = refl;
  }
  on_answer-IsPage credentials (refused detail) s h = elim (Bool-cases (is_code_required detail)) [
    | inl required ↦ rw required (record {
      by_hand = h.by_hand;
      by_app = h.by_app;
      short = h.short;
      first = λ k. absurd (ground arith);
      busy = refl;
    })
    | inr other ↦ rw other (record {
      by_hand = h.by_hand;
      by_app = h.by_app;
      short = h.short;
      first = h.first;
      busy = refl;
    })
  ]
  on_answer-IsPage mfa (refused detail) s h = record {
    by_hand = h.by_hand;
    by_app = h.by_app;
    short = h.short;
    first = h.first;
    busy = refl;
  }

  -- A step from a page leads to a page, and what it sends is in order.
  abbrev IsStep : SignIn × List Login → Type 0
  IsStep (s, out) = IsPage IsCap s × All (λ (l : Login). IsCode IsCap x l.code) out

  -- The fields that the form's own inputs and a request set do not matter.
  IsPage-frame :
      (s : SignIn) (email password : Text) (error : Option Text)
      → IsPage IsCap s
      → IsPage IsCap (record s { email = email; password = password; error = error })
  IsPage-frame s email password error h = record {
    by_hand = h.by_hand;
    by_app = h.by_app;
    short = h.short;
    first = h.first;
    busy = h.busy;
  }

  submit-IsPage : (p : Step) (s : SignIn) → IsPage IsCap s → IsPage IsCap (submit p s)
  submit-IsPage p s h = record {
    by_hand = h.by_hand;
    by_app = h.by_app;
    short = h.short;
    first = h.first;
    busy = refl;
  }

  upper-IsCode :
      (s : SignIn)
      → s.use_recovery ≡ true
      → IsPage IsCap s
      → IsCode IsCap x (some (x.upper (trim s.mfa_code)))
  upper-IsCode s recovery h =
      let m = s.mfa_code in
      let short : length m ≤ 11 = ground (arith, h.short) in
      let same : x.upper (trim m) ≡ trim m =
        up.same (trim m) (All-trim IsCap m (h.by_hand recovery)) in
      inr (up.capital (trim m), omega (arith, ap length same, length-trim m), (m, short, refl))

  on_mfa-IsStep : (s : SignIn) → verify_disabled s ≡ false → IsPage IsCap s → IsStep (on_mfa x s)
  unfolding on_mfa
  on_mfa-IsStep s k h = elim (Bool-cases s.use_recovery) [
    | inl recovery ↦ (submit-IsPage mfa s h, (rw recovery (upper-IsCode s recovery h), tt))
    | inr app ↦ (
      submit-IsPage mfa s h,
      (rw app (rw (digits-same s.mfa_code (h.by_app app)) (inl (h.by_app app, ground arith))), tt),
    )
  ]

  handle-IsStep : (e : Event) (s : SignIn) → IsPage IsCap s → IsStep (handle x e s)
  unfolding handle on_credentials
  handle-IsStep (type_email v) s h =
      if_cases (IsStep) (at_credentials s.step) _ _
        (λ _. (IsPage-frame s v s.password s.error h, tt)) (λ _. (h, tt))
  handle-IsStep (type_password v) s h =
      if_cases (IsStep) (at_credentials s.step) _ _ (λ _. (IsPage-frame s s.email v s.error h, tt))
        (λ _. (h, tt))
  handle-IsStep (type_code v) s h =
      if_cases (IsStep) (at_credentials s.step) _ _ (λ _. (h, tt))
        (λ n. (handle_mfa_input-IsPage v s n h, tt))
  handle-IsStep press_sign_in s h =
      if_cases (IsStep) (at_credentials s.step && not s.submitting) _ _
        (λ _. (submit-IsPage credentials s h, (tt, tt))) (λ _. (h, tt))
  handle-IsStep press_verify s h =
      if_cases (IsStep) (at_credentials s.step || verify_disabled s) _ _ (λ _. (h, tt))
        (λ n. on_mfa-IsStep s (ground arith) h)
  handle-IsStep go_back s h =
      if_cases (IsStep) (at_credentials s.step) _ _ (λ _. (h, tt))
        (λ _. (
          record {
            by_hand = λ _. tt;
            by_app = λ _. tt;
            short = omega arith;
            first = λ _. (refl, refl);
            busy = h.busy;
          },
          tt,
        ))
  handle-IsStep (switch_mode r) s h =
      if_cases (IsStep) (at_credentials s.step) _ _ (λ _. (h, tt))
        (λ n. (
          record {
            by_hand = λ _. tt;
            by_app = λ _. tt;
            short = ground arith;
            first = λ k. absurd (ground arith);
            busy = h.busy;
          },
          tt,
        ))
  handle-IsStep (answered a) s h = elim (Option-cases s.pending) [
    | inl idle ↦ simp idle (h, tt)
    | inr (p, asked) ↦ simp asked (on_answer-IsPage p a s h, tt)
  ]

  step_page-IsStep : (e : Event) (s : SignIn) → IsPage IsCap s → IsStep (step_page x e s)
  unfolding step_page
  step_page-IsStep e s h = if_cases (IsStep) s.left _ _ (λ _. (h, tt)) (λ _. handle-IsStep e s h)

  run-IsStep : (es : List Event) (s : SignIn) → IsPage IsCap s → IsStep (run x es s)
  unfolding run
  run-IsStep [] s h = (h, tt)
  run-IsStep (e ∷ es) s h =
      let (h', codes_now) = step_page-IsStep e s h in
      let (h'', codes_later) = run-IsStep es (step_page x e s).0 h' in
      (
        h'',
        All-append (λ (l : Login). IsCode IsCap x l.code) (step_page x e s).1 _ codes_now
            codes_later,
      )

  open_page-IsPage : IsPage IsCap open_page
  open_page-IsPage = record {
    by_hand = λ _. tt;
    by_app = λ _. tt;
    short = omega arith;
    first = λ _. (refl, refl);
    busy = refl;
  }

abbrev pub count_answers : List Event → ℕ
count_answers [] = 0
count_answers (answered a ∷ es) = suc (count_answers es)
count_answers (_ ∷ es) = count_answers es

abbrev open_requests : SignIn → ℕ
open_requests s = if s.submitting then 1 else 0

-- A step sends nothing while a request is open.
length-step_page :
    (x : Texts) (e : Event) (s : SignIn)
    → length (step_page x e s).1 + open_requests s
      ≤ count_answers (e ∷ []) + open_requests (step_page x e s).0
unfolding step_page handle handle_mfa_input on_credentials on_mfa on_answer
length-step_page x (type_email v) s = ground arith
length-step_page x (type_password v) s = ground arith
length-step_page x (type_code v) s = ground arith
length-step_page x press_sign_in s = ground arith
length-step_page x press_verify s = ground arith
length-step_page x go_back s = ground arith
length-step_page x (switch_mode r) s = ground arith
length-step_page x (answered a) s = ground arith

count_answers-cons :
    (e : Event) (es : List Event)
    → count_answers (e ∷ es) ≡ count_answers (e ∷ []) + count_answers es
count_answers-cons (answered a) es = omega arith
count_answers-cons (type_email v) es = omega arith
count_answers-cons (type_password v) es = omega arith
count_answers-cons (type_code v) es = omega arith
count_answers-cons press_sign_in es = omega arith
count_answers-cons press_verify es = omega arith
count_answers-cons go_back es = omega arith
count_answers-cons (switch_mode r) es = omega arith

length-run :
    (x : Texts) (es : List Event) (s : SignIn)
    → length (run x es s).1 + open_requests s ≤ count_answers es + open_requests (run x es s).0
unfolding run
length-run x [] s = omega arith
length-run x (e ∷ es) s =
    let s' = (step_page x e s).0 in
    omega (
      arith,
      length-run x es s',
      length-step_page x e s,
      length-append (step_page x e s).1 (run x es s').1,
      count_answers-cons e es,
    )

-- Whatever is done on the log-in page, and whenever the answers come: each request that carries a
-- code has the six digits of an app, or a recovery code of at most eleven characters, all capitals
-- or without one, which is a trimmed text in capitals; and no request is sent before the one before
-- it was answered. `toUpperCase` is taken to give such characters, and to leave a text of them.
pub run-IsCode :
    (IsCap : ℕ → Type 0) (x : Texts) (es : List Event)
    → IsUpper IsCap x.upper
    → All (λ (l : Login). IsCode IsCap x l.code) (run x es open_page).1
      × (length (run x es open_page).1 ≤ suc (count_answers es))
run-IsCode IsCap x es up =
    let (_, codes_sent) = run-IsStep IsCap x up es open_page (open_page-IsPage IsCap x up) in
    (codes_sent, ground (arith, length-run x es open_page))

-- The page can be used again, and asks for the code or shows a message that is not empty.
abbrev pub IsShown : SignIn → Type 0
IsShown s =
    (s.submitting ≡ false)
    × (((s.step ≡ mfa) × (s.error ≡ none))
        ⊎ ((m : Text) × (s.error ≡ some m) × (is_empty m ≡ false)))

message-shown :
    (x : Texts) (detail : Option Text)
    → is_empty (x.t "auth.signin.error") ≡ false
    → is_empty (message x detail) ≡ false
message-shown x none k = k
message-shown x (some d) k = ground arith

on_answer-IsShown :
    (x : Texts) (p : Step) (detail : Option Text) (s : SignIn)
    → is_empty (x.t "auth.signin.error") ≡ false
    → IsShown (on_answer x p (refused detail) s)
unfolding on_answer
on_answer-IsShown x mfa detail s k = (refl, inr (message x detail, refl, message-shown x detail k))
on_answer-IsShown x credentials detail s k = elim (Bool-cases (is_code_required detail)) [
  | inl required ↦ rw required (refl, inl (refl, refl))
  | inr other ↦ rw other (refl, inr (message x detail, refl, message-shown x detail k))
]

-- A refused request always shows, in either step: the page can be used again, and it asks for the
-- code, or shows a message that is not empty, where the text of `auth.signin.error` is not.
pub step_page-refused :
    (x : Texts) (p : Step) (detail : Option Text) (s : SignIn)
    → is_empty (x.t "auth.signin.error") ≡ false
    → s.pending ≡ some p
    → s.left ≡ false
    → IsShown (step_page x (answered (refused detail)) s).0
unfolding step_page handle
step_page-refused x p detail s k asked stays =
    simp (stays, asked) (on_answer-IsShown x p detail s k)
