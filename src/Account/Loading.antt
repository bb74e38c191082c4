-- ===== src/Account/Loading.antt =====
-- The page does not wait for ever, and an answer that comes late.
use clerq.Prelude.{◌≡◌, ◌≢◌, refl, ap, ◌∙◌, false, String, Option, some, List, [], ◌∷◌, ◌++◌, arith}
use clerq.Account.{
  Me, Provider, bootstrap, Event, me_answered, safety_timer, logged_out, on_me, on_timer, step, run,
}

step-loaded : (e : Event) (p : Provider) → p.loading ≡ false → (step e p).loading ≡ false
unfolding step on_me on_timer
step-loaded e p h = ground arith

run-loaded : (es : List Event) (p : Provider) → p.loading ≡ false → (run es p).loading ≡ false
unfolding run
run-loaded [] p h = h
run-loaded (e ∷ es) p h = run-loaded es (step e p) (step-loaded e p h)

timer-loaded : (p : Provider) → (step safety_timer p).loading ≡ false
unfolding step on_timer
timer-loaded p = ground arith

run-append : (es fs : List Event) (p : Provider) → run (es ++ fs) p ≡ run fs (run es p)
unfolding run
run-append [] fs p = refl
run-append (e ∷ es) fs p = run-append es fs (step e p)

-- Whatever happens before the safety timer and after it, the page is not loading any more once the
-- timer has ended.
pub loading-run :
    (token : Option String) (before after : List Event)
    → (run (before ++ safety_timer ∷ after) (bootstrap token)).loading ≡ false
unfolding run
loading-run token before after =
    ap (λ p. p.loading) (run-append before (safety_timer ∷ after) (bootstrap token))
    ∙ run-loaded after _ (timer-loaded (run before (bootstrap token)))

-- An answer of `/auth/me` that was asked for before the user logs out, and comes after, shows the
-- user again.
pub run-late_answer :
    (p : Provider) (me : Me) → p.asked ≢ 0 → (run (logged_out ∷ me_answered me ∷ []) p).me ≡ some me
unfolding run step on_me
run-late_answer p me h = ground arith
