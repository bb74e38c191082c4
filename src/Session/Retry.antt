-- ===== src/Session/Retry.antt =====
-- A request is sent again at most once.
use clerq.Prelude.{
  ℕ, ◌≡◌, refl, subst, sym, String, true, truthy, Option, none, some, List, [], ◌∷◌, map, All,
  All-append, arith, Option-cases, Bool-cases, inl, inr, not, ◌&&◌, ◌==◌,
}
use clerq.Session.{
  Tokens, start_refresh, join_refresh, is_auth_route, Config, Effect, post_refresh, resend, reject,
  Client, Event, error_response, refresh_ended, logged_in, logged_out, Answer, Refresh, resume,
  finish_refresh, on_error, on_refreshed, step, run,
}
use clerq.Session.Steps.{IsCoalesced, step-IsCoalesced}

-- A request that is sent again carries the mark that keeps it from being sent a third time.
abbrev pub IsLast : Effect → Type 0
IsLast (resend cfg) = cfg.retried ≡ true
IsLast _ = Unit

resume-IsLast :
    (token : Option String) (cs : List Config)
    → All (λ (cfg : Config). cfg.retried ≡ true) cs
    → All IsLast (map (resume token) cs)
resume-IsLast token [] h = tt
resume-IsLast none (c ∷ cs) (p, h) = (tt, resume-IsLast none cs h)
resume-IsLast (some t) (c ∷ cs) (p, h) = (p, resume-IsLast (some t) cs h)

start_refresh-IsLast : (tokens : Tokens) → All IsLast (start_refresh tokens).1
start_refresh-IsLast tokens = elim (Option-cases (truthy tokens.refresh)) [
  | inl e ↦ let eq : (start_refresh tokens).1 ≡ [] = ground arith in subst (All IsLast) (sym eq) tt
  | inr (t, e) ↦
      let eq : (start_refresh tokens).1 ≡ post_refresh t ∷ [] = ground arith in
      subst (All IsLast) (sym eq) (tt, tt)
]

join_refresh-IsLast :
    (inflight : Option Refresh) (c : Client) → All IsLast (join_refresh inflight c).1
join_refresh-IsLast none c = start_refresh-IsLast c.tokens
join_refresh-IsLast (some r) c = tt

-- An error response sends nothing again.
on_error-IsLast : (status : ℕ) (cfg : Config) (c : Client) → All IsLast (on_error status cfg c).1
unfolding on_error
on_error-IsLast status cfg c =
    elim (Bool-cases (status == 401 && not cfg.retried && not (is_auth_route cfg.url))) [
      | inl e ↦ rw e (join_refresh-IsLast c.inflight c)
      | inr e ↦ rw e (tt, tt)
    ]

on_refreshed-IsLast :
    (answer : Answer) (c : Client) → IsCoalesced c → All IsLast (on_refreshed answer c).1
unfolding on_refreshed
on_refreshed-IsLast answer c h = elim (Option-cases c.inflight) [
  | inl e ↦
      let nothing_sent : (on_refreshed answer c).1 ≡ [] = ground arith in
      subst (All IsLast) (sym nothing_sent) tt
  | inr (r, e) ↦
      let token = truthy (finish_refresh r answer c.tokens).1 in
      let eq : (on_refreshed answer c).1 ≡ map (resume token) c.waiting = ground arith in
      subst (All IsLast) (sym eq) (resume-IsLast token c.waiting h.marked)
]

step-IsLast : (e : Event) (c : Client) → IsCoalesced c → All IsLast (step e c).1
unfolding step
step-IsLast (error_response status cfg) c h = on_error-IsLast status cfg c
step-IsLast (refresh_ended answer) c h = on_refreshed-IsLast answer c h
step-IsLast (logged_in a r) c h = tt
step-IsLast logged_out c h = tt

run-IsLast_from : (es : List Event) (c : Client) → IsCoalesced c → All IsLast (run es c).1
unfolding run
run-IsLast_from [] c h = tt
run-IsLast_from (e ∷ es) c h =
    All-append IsLast (step e c).1 _ (step-IsLast e c h)
      (run-IsLast_from es (step e c).0 (step-IsCoalesced e c h))

not_again :
    (status : ℕ) (cfg : Config) (c : Client)
    → cfg.retried ≡ true
    → on_error status cfg c ≡ (c, reject cfg ∷ [])
unfolding on_error
not_again status cfg c h = ground arith

-- From a client whose waiting requests are marked, over any events, every request that is sent
-- again carries the mark; and an error response to a request with the mark is handed to its caller
-- and changes nothing else. So no request is sent a third time.
pub run-IsLast :
    (es : List Event) (c : Client)
    → IsCoalesced c
    → All IsLast (run es c).1
      × ((status : ℕ) (cfg : Config)
          → (on_error status (record cfg { retried = true }) c
              ≡ (c, reject (record cfg { retried = true }) ∷ [])))
run-IsLast es c h =
    (run-IsLast_from es c h, λ status cfg. not_again status (record cfg { retried = true }) c refl)
