-- ===== src/SignIn/Reset/Requests.antt =====
-- What is sent to set a password, and when the page says that it is done.
use clerq.Prelude.{
  ℕ, ◌+◌, ◌≤◌, ltb, ◌≡◌, refl, subst, if_cases, String, Text, text_eq, Bool, true, false, not, ◌&&◌,
  List, [], ◌∷◌, length, length-append, All, All-append, ◌∙◌, arith, if◌then◌else◌,
}
use clerq.SignIn.Reset.{
  Phase, done, Reset, NewPassword, valid_for, not_valid, failed, Event, validated, type_password,
  type_confirm, press_submit, accepted, refused, open_reset, on_validated, on_submit, is_loading,
  is_ready, handle, run,
}

abbrev pub is_done : Phase → Bool
is_done done = true
is_done _ = false

-- A request of the page with the token: a password of eight characters or more.
abbrev pub IsSent : Text → NewPassword → Type 0
IsSent token r = (r.token ≡ token) × (8 ≤ length r.new_password)

-- A request is open, or the page is done.
abbrev count_open : Reset → ℕ
count_open s = (if s.submitting then 1 else 0) + (if is_done s.phase then 1 else 0)

-- A step keeps the token, sends requests with it only, and opens no more than it sends.
abbrev IsStep : Reset → Reset × List NewPassword → Type 0
IsStep s (s', out) =
    (s'.token ≡ s.token) × All (IsSent s.token) out × (count_open s' ≤ count_open s + length out)

IsStep-none : (s : Reset) → IsStep s (s, [])
IsStep-none s = (refl, tt, omega arith)

module _ (t : String → Text) where
  on_submit-IsStep : (s : Reset) → s.submitting ≡ false → IsStep s (on_submit t s)
  unfolding on_submit
  on_submit-IsStep s idle =
      if_cases (IsStep s) (ltb (length s.password) 8) _ _ (λ _. (refl, tt, omega arith))
        (λ long.
          if_cases (IsStep s) (not (text_eq s.password s.confirm)) _ _
            (λ _. (refl, tt, omega arith)) (λ _. (refl, ((refl, ground arith), tt), ground arith)))

  handle-IsStep : (e : Event) (s : Reset) → IsStep s (handle t e s)
  unfolding handle on_validated
  handle-IsStep (validated (valid_for m)) s =
      if_cases (IsStep s) (is_loading s.phase) _ _ (λ _. (refl, tt, ground arith))
        (λ _. IsStep-none s)
  handle-IsStep (validated (not_valid m)) s =
      if_cases (IsStep s) (is_loading s.phase) _ _ (λ _. (refl, tt, ground arith))
        (λ _. IsStep-none s)
  handle-IsStep (validated failed) s =
      if_cases (IsStep s) (is_loading s.phase) _ _ (λ _. (refl, tt, ground arith))
        (λ _. IsStep-none s)
  handle-IsStep (type_password v) s =
      if_cases (IsStep s) (is_ready s.phase) _ _ (λ _. (refl, tt, omega arith)) (λ _. IsStep-none s)
  handle-IsStep (type_confirm v) s =
      if_cases (IsStep s) (is_ready s.phase) _ _ (λ _. (refl, tt, omega arith)) (λ _. IsStep-none s)
  handle-IsStep press_submit s =
      if_cases (IsStep s) (is_ready s.phase && not s.submitting) _ _
        (λ h. on_submit-IsStep s (ground arith)) (λ _. IsStep-none s)
  handle-IsStep accepted s =
      if_cases (IsStep s) s.submitting _ _ (λ open_one. (refl, tt, ground arith))
        (λ _. IsStep-none s)
  handle-IsStep (refused detail) s =
      if_cases (IsStep s) s.submitting _ _ (λ _. (refl, tt, ground arith)) (λ _. IsStep-none s)

  run-IsStep : (es : List Event) (s : Reset) → IsStep s (run t es s)
  unfolding run
  run-IsStep [] s = IsStep-none s
  run-IsStep (e ∷ es) s =
      let s' = (handle t e s).0 in
      let (same, now, fewer) = handle-IsStep e s in
      let (same', later, fewer') = run-IsStep es s' in
      (
        same' ∙ same,
        All-append (IsSent s.token) (handle t e s).1 _ now
            (subst (λ k. All (IsSent k) (run t es s').1) same later),
        omega (arith, fewer, fewer', length-append (handle t e s).1 (run t es s').1),
      )

  -- Whatever is done on the page of a link, and whatever the server answers: each request that sets a password has the
  -- link's token and a password of at least eight characters, and the page says that the password was
  -- set only after such a request was sent.
  pub run-IsSent :
      (token : Text) (es : List Event)
      → All (IsSent token) (run t es (open_reset t token)).1
        × ((if is_done (run t es (open_reset t token)).0.phase then 1 else 0)
            ≤ length (run t es (open_reset t token)).1)
  unfolding open_reset
  run-IsSent token es =
      let (_, sent, fewer) = run-IsStep es (open_reset t token) in (sent, ground arith)
