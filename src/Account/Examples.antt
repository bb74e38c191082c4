-- ===== src/Account/Examples.antt =====
-- A page that loads, on which the theorems about the user are applied.
use clerq.Prelude.{◌≡◌, false, [], ◌∷◌, ◌++◌, some}
use clerq.Account.{Me, bootstrap, me_answered, me_failed, safety_timer, logged_in, logged_out, run}
use clerq.Account.Loading.{loading-run, run-late_answer}

abbrev ann : Me
ann = record { user = 3; tenant = 1 }

loading-run_example :
    (run
      ((me_failed ∷ []) ++ safety_timer ∷ logged_in ∷ me_answered ann ∷ [])
      (bootstrap (some "t"))).loading
    ≡ false
loading-run_example = loading-run (some "t") (me_failed ∷ []) (logged_in ∷ me_answered ann ∷ [])

run-late_answer_example :
    (run
      (logged_out ∷ me_answered ann ∷ [])
      (record { me = some ann; loading = false; asked = 1 })).me
    ≡ some ann
run-late_answer_example =
    run-late_answer (record { me = some ann; loading = false; asked = 1 }) ann (λ e. cc)
