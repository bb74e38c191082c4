-- ===== src/ValidatePage/RunDetail/Rules.antt =====
-- What is shown of a rule, and which rule is selected.
use clerq.Prelude.{
  ℕ, ◌<◌, ◌==◌, ◌≡◌, String, str_eq, Bool, true, false, ◌||◌, Option, none, some, is_some, some_of,
  List, [], ◌∷◌, All, if_cases, arith,
}
use clerq.Prelude.Last.{IsLastOf}
use clerq.Types.{RunStep, ValidationRuleResult}
use clerq.ValidatePage.RunDetail.{
  Detail, Event, update, stream_end, escape, close_image, arrow_down, arrow_up, click_rule,
  open_image, below, above, handle, run, is_validating, results_of, RuleStatus, waiting, checking,
  judged,
}

abbrev pub is_named : String → ValidationRuleResult → Bool
is_named name r = str_eq r.rule_name name

-- Why a rule has the status that is shown.
abbrev pub IsShown : String → Option RunStep → RuleStatus → Type 0
IsShown name step checking = is_validating step ≡ true
IsShown name step waiting =
    (is_validating step ≡ false) × (some_of (is_named name) (results_of step) ≡ false)
IsShown name step (judged v) =
    (is_validating step ≡ false)
    × (r : ValidationRuleResult) × IsLastOf (is_named name) (results_of step) (some r)
    × (r.status ≡ v)

abbrev IsIndex : ℕ → Option ℕ → Type 0
IsIndex n none = Unit
IsIndex n (some i) = i < n

-- The event is one of a policy with `n` rules.
abbrev pub IsOf : ℕ → Event → Type 0
IsOf n (arrow_down m) = m ≡ n
IsOf n (arrow_up m) = m ≡ n
IsOf n (click_rule i) = i < n
IsOf n _ = Unit

below-IsIndex : (n : ℕ) (o : Option ℕ) → 0 < n → IsIndex n o → IsIndex n (below n o)
below-IsIndex n none p h = p
below-IsIndex n (some i) p h = omega arith

above-IsIndex : (n : ℕ) (o : Option ℕ) → 0 < n → IsIndex n o → IsIndex n (above o)
above-IsIndex n none p h = p
above-IsIndex n (some i) p h = omega arith

handle-IsIndex :
    (n : ℕ) (e : Event) (d : Detail)
    → 0 < n
    → IsOf n e
    → IsIndex n d.selected_rule_index
    → IsIndex n (handle e d).selected_rule_index
unfolding handle
handle-IsIndex n (update u) d p own h =
    if_cases (λ (x : Detail). IsIndex n x.selected_rule_index) d.stream _ _ (λ _. h) (λ _. h)
handle-IsIndex n stream_end d p own h = h
handle-IsIndex n escape d p own h =
    if_cases (λ (x : Detail). IsIndex n x.selected_rule_index) (is_some d.lightbox_index) _ _
      (λ _. h) (λ _. h)
handle-IsIndex n (arrow_down m) d p own h =
    if_cases (λ (x : Detail). IsIndex n x.selected_rule_index) (is_some d.lightbox_index || m == 0)
      _ _ (λ _. h) (λ _. rw own (below-IsIndex n d.selected_rule_index p h))
handle-IsIndex n (arrow_up m) d p own h =
    if_cases (λ (x : Detail). IsIndex n x.selected_rule_index) (is_some d.lightbox_index || m == 0)
      _ _ (λ _. h) (λ _. above-IsIndex n d.selected_rule_index p h)
handle-IsIndex n (click_rule i) d p own h = own
handle-IsIndex n (open_image i) d p own h = h
handle-IsIndex n close_image d p own h = h

-- Whatever is pressed, and whatever the stream says, the selected rule is one of the policy's, or none is.
run-IsIndex :
    (n : ℕ) (es : List Event) (d : Detail)
    → 0 < n
    → All (IsOf n) es
    → IsIndex n d.selected_rule_index
    → IsIndex n (run es d).selected_rule_index
unfolding run
run-IsIndex n [] d p own h = h
run-IsIndex n (e ∷ es) d p (now, own) h =
    run-IsIndex n es (handle e d) p own (handle-IsIndex n e d p now h)
