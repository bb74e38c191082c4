-- ===== src/Session.antt =====
-- frontend/src/context/auth.tsx and frontend/src/api/client.ts: the tokens in the browser's storage
-- and the HTTP client that renews them.
--
-- The state is what the page holds between two turns of the event loop. A step is one turn: an
-- answer 401 arrives, the refresh that is under way ends, the user logs in or out, a request is
-- sent. All that wait for a refresh go on in the turn in which it ends, in their order. An
-- original request is named by a number.
pub mod Steps
pub mod Burst
pub mod Retry
pub mod Logout
mod Examples
use clerq.Prelude.{
  ℕ, String, str_eq, Bool, true, false, not, ◌&&◌, ◌||◌, Option, none, some, List, [], ◌∷◌, ◌++◌,
  map, truthy, get_or, then_get, map_get, is_some, if◌then◌else◌, ◌==◌,
}
use text.Mathlib.Text.{starts_with}

-- localStorage, under the two keys of auth.tsx
pub record Tokens : Type 0 where
  pub access : Option String
  pub refresh : Option String

-- `setTokens`: an empty string is stored as no token at all
unfoldable pub set_tokens : Option String → Option String → Tokens
set_tokens access refresh = record { access = truthy access; refresh = truthy refresh }

abbrev pub no_tokens : Tokens
no_tokens = set_tokens none none

-- the part of an axios request that the interceptors read and write
pub record Config : Type 0 where
  pub id : ℕ
  pub url : String
  pub retried : Bool
  pub authorization : Option String

-- What the page sends or answers, in order: the refresh POST, a request that is sent again, an
-- error handed to the caller.
pub data Effect : Type 0 where
  post_refresh : String → Effect
  resend : Config → Effect
  reject : Config → Effect

-- A pending `refreshAccessToken`: with the token that its POST carries, or, where no refresh token
-- is stored, about to give null.
pub data Refresh : Type 0 where
  posted : String → Refresh
  no_token : Refresh

pub record Client : Type 0 where
  pub tokens : Tokens
  pub inflight : Option Refresh
  pub waiting : List Config

-- the request interceptor
unfoldable pub authorize : Tokens → Config → Config
authorize tokens cfg = elim (truthy tokens.access) [
  | none ↦ cfg
  | some token ↦ record cfg { authorization = some token }
]

abbrev pub is_auth_route : String → Bool
is_auth_route url = starts_with url "/auth/login" || starts_with url "/auth/refresh"

-- the start of `refreshAccessToken`
abbrev pub start_refresh : Tokens → Refresh × List Effect
start_refresh tokens = elim (truthy tokens.refresh) [
  | none ↦ (no_token, [])
  | some token ↦ (posted token, post_refresh token ∷ [])
]

abbrev pub join_refresh : Option Refresh → Client → Client × List Effect
join_refresh (some r) c = (c, [])
join_refresh none c =
    let (r, effects) = start_refresh c.tokens in (record c { inflight = some r }, effects)

abbrev wait : Config → Client × List Effect → Client × List Effect
wait cfg (c, effects) =
    (record c { waiting = c.waiting ++ record cfg { retried = true } ∷ [] }, effects)

-- The response interceptor up to its `await`, on an error with the status and the request's config.
-- An error without a config is handed on as it is, and is not modelled.
unfoldable pub on_error : ℕ → Config → Client → Client × List Effect
on_error status cfg c =
    if status == 401 && not cfg.retried && not (is_auth_route cfg.url)
    then wait cfg (join_refresh c.inflight c)
    else (c, reject cfg ∷ [])

-- How the refresh POST ends: the two tokens of the answer, which may be missing, or an error.
pub data Answer : Type 0 where
  renewed : Option String → Option String → Answer
  refused : Answer

-- `refreshAccessToken` after its POST: the tokens stored, and the token that it gives.
abbrev pub finish_refresh : Refresh → Answer → Tokens → Tokens × Option String
finish_refresh no_token _ tokens = (tokens, none)
finish_refresh (posted _) (renewed access refresh) tokens = (set_tokens access refresh, access)
finish_refresh (posted _) refused tokens = (no_tokens, none)

-- the interceptor behind its `await`, for one request and the token that the refresh gave
abbrev resume : Option String → Config → Effect
resume none cfg = reject cfg
resume (some token) cfg = resend (record cfg { authorization = some token })

-- With no new token each of the waiting requests clears the tokens once more.
abbrev settle : Option String → List Config → Tokens → Tokens
settle none [] tokens = tokens
settle none (_ ∷ _) tokens = no_tokens
settle (some _) _ tokens = tokens

-- The refresh ends: its result is stored, and every waiting request goes on.
unfoldable pub on_refreshed : Answer → Client → Client × List Effect
on_refreshed answer c = elim c.inflight [
  | none ↦ (c, [])
  | some r ↦
      let (tokens, access) = finish_refresh r answer c.tokens in
      let token = truthy access in
      (
        record { tokens = settle token c.waiting tokens; inflight = none; waiting = [] },
        map (resume token) c.waiting,
      )
]

-- The tokens' other writers, `login` (behind its POST) and `logout`, both of auth.tsx.
unfoldable pub login : Option String → Option String → Client → Client
login access refresh c = record c { tokens = set_tokens access refresh }

unfoldable pub logout : Client → Client
logout c = record c { tokens = no_tokens }

pub data Event : Type 0 where
  error_response : ℕ → Config → Event
  refresh_ended : Answer → Event
  logged_in : Option String → Option String → Event
  logged_out : Event

unfoldable pub step : Event → Client → Client × List Effect
unfolding on_error on_refreshed login logout set_tokens
step (error_response status cfg) c = on_error status cfg c
step (refresh_ended answer) c = on_refreshed answer c
step (logged_in access refresh) c = (login access refresh c, [])
step logged_out c = (logout c, [])

unfoldable pub run : List Event → Client → Client × List Effect
unfolding step
run [] c = (c, [])
run (e ∷ es) c =
    let (c', effects) = step e c in let (last, later) = run es c' in (last, effects ++ later)
