-- ===== src/Session/Steps.antt =====
-- What one turn of the client keeps and gives.
use clerq.Prelude.{
  truthy, ℕ, ◌+◌, ◌==◌, if◌then◌else◌, ◌≡◌, ◌≢◌, refl, sym, subst, ap, String, true, Option, none,
  some, List, [], ◌∷◌, ◌++◌, map, All, All-append, arith, ◌⊎◌, inl, inr, Option-cases, eq_iff,
}
use clerq.Session.{
  Tokens, Config, Effect, post_refresh, resend, reject, Client, posted, Answer, renewed, refused,
  Event, error_response, refresh_ended, logged_in, logged_out, set_tokens, no_tokens, resume,
  finish_refresh, on_error, on_refreshed, authorize, login, logout, step, run,
}

-- Requests wait only for a refresh that is under way, and each has been marked as sent again.
pub record IsCoalesced (c : Client) : Type 0 where
  pub idle : c.inflight ≡ none → c.waiting ≡ []
  pub marked : All (λ (cfg : Config). cfg.retried ≡ true) c.waiting

abbrev mark : Config → Config
mark cfg = record cfg { retried = true }

abbrev IsMarked : List Config → Type 0
IsMarked = All (λ (cfg : Config). cfg.retried ≡ true)

waiting-on_error :
    (status : ℕ) (cfg : Config) (c : Client)
    → ((on_error status cfg c).0.waiting ≡ c.waiting)
      ⊎ ((on_error status cfg c).0.waiting ≡ c.waiting ++ mark cfg ∷ [])
unfolding on_error
waiting-on_error status cfg c = ground arith

on_error-IsMarked :
    (status : ℕ) (cfg : Config) (c : Client)
    → IsMarked c.waiting
    → IsMarked (on_error status cfg c).0.waiting
on_error-IsMarked status cfg c h = elim (waiting-on_error status cfg c) [
  | inl e ↦ subst IsMarked (sym e) h
  | inr e ↦
      subst IsMarked (sym e)
        (All-append (λ (d : Config). d.retried ≡ true) c.waiting _ h (refl, tt))
]

on_refreshed-IsCoalesced :
    (answer : Answer) (c : Client) → IsCoalesced c → IsCoalesced (on_refreshed answer c).0
unfolding on_refreshed
on_refreshed-IsCoalesced answer c h = elim (Option-cases c.inflight) [
  | inl e ↦
      let same : (on_refreshed answer c).0 ≡ c = ground arith in subst IsCoalesced (sym same) h
  | inr (r, e) ↦
      let none_left : (on_refreshed answer c).0.waiting ≡ [] = ground arith in
      record { idle = λ p. none_left; marked = subst IsMarked (sym none_left) tt }
]

-- Requests wait only for a refresh under way, and all that wait have been marked as retried: every
-- step keeps this.
pub step-IsCoalesced : (e : Event) (c : Client) → IsCoalesced c → IsCoalesced (step e c).0
unfolding step
step-IsCoalesced (error_response status cfg) c h = record {
  idle = λ p. unfold on_error in ground (arith, h.idle);
  marked = on_error-IsMarked status cfg c h.marked;
}
step-IsCoalesced (refresh_ended answer) c h = on_refreshed-IsCoalesced answer c h
step-IsCoalesced (logged_in a r) c h = record { idle = h.idle; marked = h.marked }
step-IsCoalesced logged_out c h = record { idle = h.idle; marked = h.marked }

-- how many of the effects send the request `k` again or hand it back
abbrev pub settled : ℕ → List Effect → ℕ
settled k [] = 0
settled k (post_refresh _ ∷ es) = settled k es
settled k (resend cfg ∷ es) = (if cfg.id == k then 1 else 0) + settled k es
settled k (reject cfg ∷ es) = (if cfg.id == k then 1 else 0) + settled k es

-- how many of the requests are `k`
abbrev pub held : ℕ → List Config → ℕ
held k [] = 0
held k (cfg ∷ cs) = (if cfg.id == k then 1 else 0) + held k cs

-- how many of the events are an error response to `k`
abbrev pub errors : ℕ → List Event → ℕ
errors k [] = 0
errors k (error_response _ cfg ∷ es) = (if cfg.id == k then 1 else 0) + errors k es
errors k (_ ∷ es) = errors k es

settled-append : (k : ℕ) (xs ys : List Effect) → settled k (xs ++ ys) ≡ settled k xs + settled k ys
settled-append k [] ys = omega arith
settled-append k (post_refresh t ∷ xs) ys = settled-append k xs ys
settled-append k (resend c ∷ xs) ys = omega (arith, settled-append k xs ys)
settled-append k (reject c ∷ xs) ys = omega (arith, settled-append k xs ys)

held-append : (k : ℕ) (xs ys : List Config) → held k (xs ++ ys) ≡ held k xs + held k ys
held-append k [] ys = omega arith
held-append k (c ∷ xs) ys = omega (arith, held-append k xs ys)

settled-resume :
    (k : ℕ) (token : Option String) (cs : List Config)
    → settled k (map (resume token) cs) ≡ held k cs
settled-resume k token [] = refl
settled-resume k none (c ∷ cs) =
    ap (λ n. (if c.id == k then 1 else 0) + n) (settled-resume k none cs)
settled-resume k (some t) (c ∷ cs) =
    ap (λ n. (if c.id == k then 1 else 0) + n) (settled-resume k (some t) cs)

settled-on_error :
    (k status : ℕ) (cfg : Config) (c : Client)
    → settled k (on_error status cfg c).1 + held k (on_error status cfg c).0.waiting
      ≡ held k c.waiting + (if cfg.id == k then 1 else 0)
unfolding on_error
settled-on_error k status cfg c = ground (arith, held-append k c.waiting (mark cfg ∷ []))

settled-on_refreshed :
    (k : ℕ) (answer : Answer) (c : Client)
    → settled k (on_refreshed answer c).1 + held k (on_refreshed answer c).0.waiting
      ≡ held k c.waiting
unfolding on_refreshed
settled-on_refreshed k answer c = elim (Option-cases c.inflight) [
  | inl e ↦ ground arith
  | inr (r, e) ↦
      ground (arith, settled-resume k (truthy (finish_refresh r answer c.tokens).1) c.waiting)
]

settled-step :
    (k : ℕ) (e : Event) (c : Client)
    → settled k (step e c).1 + held k (step e c).0.waiting ≡ held k c.waiting + errors k (e ∷ [])
unfolding step
settled-step k (error_response status cfg) c = omega (arith, settled-on_error k status cfg c)
settled-step k (refresh_ended answer) c = omega (arith, settled-on_refreshed k answer c)
settled-step k (logged_in a r) c = unfold login in omega arith
settled-step k logged_out c = unfold logout in omega arith

errors-cons :
    (k : ℕ) (e : Event) (es : List Event) → errors k (e ∷ es) ≡ errors k (e ∷ []) + errors k es
errors-cons k (error_response _ _) es = omega arith
errors-cons k _ es = omega arith

-- No request is lost and none is answered twice, over any events: for each request, as many of its
-- error responses as there were are handed to its caller, or have it sent again, or wait for the
-- refresh that is under way, counting those that waited at the start.
pub settled-run :
    (k : ℕ) (es : List Event) (c : Client)
    → settled k (run es c).1 + held k (run es c).0.waiting ≡ held k c.waiting + errors k es
unfolding run
settled-run k [] c = omega arith
settled-run k (e ∷ es) c =
    let (c', effects) = step e c in
    omega (
      arith,
      settled-append k (step e c).1 (run es (step e c).0).1,
      settled-step k e c,
      errors-cons k e es,
      settled-run k es (step e c).0,
    )

abbrev pub idle_with : Tokens → Client
idle_with tokens = record { tokens = tokens; inflight = none; waiting = [] }

on_refreshed-refused :
    (c : Client) (sent : String) (ws : List Config)
    → c.inflight ≡ some (posted sent)
    → c.waiting ≡ ws
    → on_refreshed refused c ≡ (idle_with no_tokens, map reject ws)
unfolding on_refreshed
on_refreshed-refused c sent [] h e = ground arith
on_refreshed-refused c sent (w ∷ ws) h e = ground arith

-- The refresh that is under way ends. If its answer brings an access token, the answer's tokens are
-- stored and every waiting request is sent again with the new one, in order, which the request
-- interceptor leaves in place; if the server refuses, no token is left and each waiting request is
-- handed to its caller, in order. Either way nothing waits any more.
on_refreshed_lem :
    (c : Client) (sent access : String) (refresh : Option String)
    → c.inflight ≡ some (posted sent)
    → access ≢ ""
    → (on_refreshed (renewed (some access) refresh) c ≡ (
      idle_with (set_tokens (some access) refresh),
      map (λ cfg. resend (record cfg { authorization = some access })) c.waiting,
    ))
      × ((cfg : Config)
          → let renewed_cfg : Config = record cfg { authorization = some access } in
            authorize (set_tokens (some access) refresh) renewed_cfg ≡ renewed_cfg)
      × (on_refreshed refused c ≡ (idle_with no_tokens, map reject c.waiting))
unfolding on_refreshed authorize set_tokens
on_refreshed_lem c sent access refresh h n = (
  ground (arith, eq_iff access ""),
  λ cfg. ground (arith, eq_iff access ""),
  on_refreshed-refused c sent c.waiting h refl,
)
