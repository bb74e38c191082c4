-- ===== src/Account.antt =====
-- frontend/src/context/auth.tsx, `AuthProvider`: what the page knows of the user. `Session` models
-- the tokens; here a step is an answer to `/auth/me`, the end of the log-in request, a log-out, or
-- the timer of twelve seconds. Answers to `/auth/me` may come at any time after they were asked for.
pub mod Loading
mod Examples
use clerq.Prelude.{
  ℕ, zero, suc, ◌+◌, ◌-◌, Bool, true, false, String, Option, none, some, List, [], ◌∷◌, is_some,
  truthy, if◌then◌else◌,
}

-- the user and the tenant of the answer, by their ids
pub record Me : Type 0 where
  pub user : ℕ
  pub tenant : ℕ

-- `AuthState`; `asked` counts the calls of `loadMe` that are not answered.
pub record Provider : Type 0 where
  pub me : Option Me
  pub loading : Bool
  pub asked : ℕ

abbrev ask : Provider → Provider
ask p = record p { asked = suc p.asked }

-- the first effect, on the stored access token
unfoldable pub bootstrap : Option String → Provider
bootstrap token =
    let start : Provider = record { me = none; loading = true; asked = 0 } in
    if is_some (truthy token) then ask start else record start { loading = false }

pub data Event : Type 0 where
  me_answered : Me → Event
  me_failed safety_timer logged_in logged_out refetched : Event

-- `loadMe` behind its `await`
unfoldable pub on_me : Option Me → Provider → Provider
on_me me p = elim p.asked [ zero ↦ p | suc n ↦ record { me = me; loading = false; asked = n } ]

-- the timer
unfoldable pub on_timer : Provider → Provider
on_timer p = if p.loading then record p { me = none; loading = false } else p

-- `login` behind its request, and `refetchMe`, ask for the user; `logout` forgets it.
unfoldable pub step : Event → Provider → Provider
unfolding on_me on_timer
step (me_answered me) p = on_me (some me) p
step me_failed p = on_me none p
step safety_timer p = on_timer p
step logged_in p = ask p
step logged_out p = record p { me = none; loading = false }
step refetched p = ask p

unfoldable pub run : List Event → Provider → Provider
unfolding step
run [] p = p
run (e ∷ es) p = run es (step e p)
