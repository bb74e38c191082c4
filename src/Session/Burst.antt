-- ===== src/Session/Burst.antt =====
-- Concurrent refreshes are joined.
use clerq.Prelude.{
  truthy, ℕ, suc, ◌+◌, ◌≤◌, ◌≡◌, String, Option, none, some, List, [], ◌∷◌, ◌++◌, map, arith,
  if◌then◌else◌, is_some, Option-cases, inl, inr,
}
use clerq.Session.{
  Effect, post_refresh, resend, reject, Config, Client, Event, error_response, refresh_ended,
  logged_in, logged_out, resume, finish_refresh, on_error, on_refreshed, login, logout, step, run,
}

-- how many refresh requests were posted
abbrev pub posts : List Effect → ℕ
posts [] = 0
posts (post_refresh _ ∷ es) = suc (posts es)
posts (resend _ ∷ es) = posts es
posts (reject _ ∷ es) = posts es

-- how many refreshes have ended
abbrev pub ends : List Event → ℕ
ends [] = 0
ends (refresh_ended _ ∷ es) = suc (ends es)
ends (_ ∷ es) = ends es

abbrev pub under_way : Client → ℕ
under_way c = if is_some c.inflight then 1 else 0

posts-append : (xs ys : List Effect) → posts (xs ++ ys) ≡ posts xs + posts ys
posts-append [] ys = omega arith
posts-append (post_refresh t ∷ xs) ys = omega (arith, posts-append xs ys)
posts-append (resend c ∷ xs) ys = posts-append xs ys
posts-append (reject c ∷ xs) ys = posts-append xs ys

posts-resume : (token : Option String) (cs : List Config) → posts (map (resume token) cs) ≡ 0
posts-resume token [] = omega arith
posts-resume none (c ∷ cs) = posts-resume none cs
posts-resume (some t) (c ∷ cs) = posts-resume (some t) cs

posts-on_error :
    (status : ℕ) (cfg : Config) (c : Client)
    → posts (on_error status cfg c).1 + under_way c ≤ under_way (on_error status cfg c).0
unfolding on_error
posts-on_error status cfg c = ground arith

posts-step :
    (c : Client) (e : Event)
    → posts (step e c).1 + under_way c ≤ under_way (step e c).0 + ends (e ∷ [])
unfolding step
posts-step c (error_response status cfg) = omega (arith, posts-on_error status cfg c)
posts-step c (refresh_ended answer) =
    unfold on_refreshed in
    elim (Option-cases c.inflight) [
      | inl e ↦ ground arith
      | inr (r, e) ↦
          ground (arith, posts-resume (truthy (finish_refresh r answer c.tokens).1) c.waiting)
    ]
posts-step c (logged_in a r) = unfold login in omega arith
posts-step c logged_out = unfold logout in omega arith

ends-cons : (e : Event) (es : List Event) → ends (e ∷ es) ≡ ends (e ∷ []) + ends es
ends-cons (refresh_ended _) es = omega arith
ends-cons _ es = omega arith

-- Over any events, at most one refresh more is posted than has ended, one that is under way at the
-- start included. So a burst of 401s that arrives while a refresh is under way posts none, and at an
-- idle client at most one.
pub posts-run : (es : List Event) (c : Client) → posts (run es c).1 + under_way c ≤ ends es + 1
unfolding run
posts-run [] c = ground arith
posts-run (e ∷ es) c = omega (
  arith,
  posts-append (step e c).1 (run es (step e c).0).1,
  posts-step c e,
  ends-cons e es,
  posts-run es (step e c).0,
)
