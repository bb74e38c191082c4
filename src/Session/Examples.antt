-- ===== src/Session/Examples.antt =====
-- A burst of 401s, on which the theorems about the client are applied.
use clerq.Prelude.{All, ℕ, ◌≡◌, ◌≤◌, ◌+◌, refl, true, false, List, [], ◌∷◌, some}
use clerq.Session.{
  Tokens, set_tokens, Config, Client, resend, reject, post_refresh, posted, renewed, Event,
  error_response, refresh_ended, on_error, on_refreshed, logout, step, run,
}
use clerq.Session.Steps.{IsCoalesced, settled, held, errors, settled-run, idle_with}
use clerq.Session.Burst.{posts, ends, under_way, posts-run}
use clerq.Session.Retry.{IsLast, run-IsLast}
use clerq.Session.Logout.{tokens-after_logout}

abbrev ask : ℕ → Config
ask n = record { id = n; url = "/cases/"; retried = false; authorization = some "old" }

abbrev again : ℕ → Config
again n = record (ask n) { retried = true }

abbrev stored : Tokens
stored = record { access = some "old"; refresh = some "r1" }

abbrev idle : Client
idle = idle_with stored

-- two requests wait for one refresh
abbrev busy : Client
busy = record { tokens = stored; inflight = some (posted "r1"); waiting = again 1 ∷ again 2 ∷ [] }

abbrev burst : List Event
burst =
    error_response 401 (ask 1)
    ∷ error_response 401 (ask 2)
    ∷ refresh_ended (renewed (some "new") (some "r2"))
    ∷ error_response 401 (again 1)
    ∷ []

burst_tests :
    (run burst idle).1
    ≡ post_refresh "r1"
      ∷ resend (record (again 1) { authorization = some "new" })
      ∷ resend (record (again 2) { authorization = some "new" })
      ∷ reject (again 1)
      ∷ []
unfolding run step on_error on_refreshed set_tokens
burst_tests = refl

busy-IsCoalesced : IsCoalesced busy
busy-IsCoalesced = record { idle = λ e. cc; marked = (refl, (refl, tt)) }

run-IsLast_example :
    All IsLast (run burst busy).1
    × ((status : ℕ) (cfg : Config)
        → (on_error status (record cfg { retried = true }) busy
            ≡ (busy, reject (record cfg { retried = true }) ∷ [])))
run-IsLast_example = run-IsLast burst busy busy-IsCoalesced

settled-run_example :
    settled 1 (run burst busy).1 + held 1 (run burst busy).0.waiting
    ≡ held 1 busy.waiting + errors 1 burst
settled-run_example = settled-run 1 burst busy

posts-run_example : posts (run burst busy).1 + under_way busy ≤ ends burst + 1
posts-run_example = posts-run burst busy

tokens-after_logout_example :
    (on_refreshed (renewed (some "new") (some "r2")) (logout busy)).0.tokens
    ≡ record { access = some "new"; refresh = some "r2" }
tokens-after_logout_example = tokens-after_logout busy "r1" "new" "r2" refl (λ e. cc) (λ e. cc)
