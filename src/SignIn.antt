-- ===== src/SignIn.antt =====
-- frontend/src/pages/LoginPage.tsx: the log-in form with its second step. `toLowerCase` and
-- `toUpperCase` of JavaScript, and the texts of `t`, are parameters. What the page's request comes
-- to is an event of its own; a page that was left takes no more events.
pub mod Reset
pub mod Steps
mod Examples
use clerq.Prelude.{
  ℕ, ◌==◌, leb, String, Text, codes, text_eq, trim, is_empty, Bool, true, false, not, ◌&&◌, ◌||◌,
  Option, none, some, is_some, List, [], ◌∷◌, ◌++◌, keep, take, length, if◌then◌else◌,
}

pub data Step : Type 0 where
  credentials mfa : Step

pub record SignIn : Type 0 where
  pub email : Text
  pub password : Text
  pub step : Step
  pub mfa_code : Text
  pub use_recovery : Bool
  pub error : Option Text
  pub submitting : Bool
  -- the step whose request has not been answered
  pub pending : Option Step
  pub left : Bool

-- the arguments of `login`
pub record Login : Type 0 where
  pub email : Text
  pub password : Text
  pub code : Option Text

pub record Texts : Type 0 where
  pub lower : Text → Text
  pub upper : Text → Text
  pub t : String → Text

pub data Answer : Type 0 where
  accepted : Answer
  -- the `detail` of the answer, where there is one
  refused : Option Text → Answer

pub data Event : Type 0 where
  type_email type_password type_code : Text → Event
  press_sign_in press_verify go_back : Event
  switch_mode : Bool → Event
  answered : Answer → Event

abbrev pub open_page : SignIn
open_page = record {
  email = [];
  password = [];
  step = credentials;
  mfa_code = [];
  use_recovery = false;
  error = none;
  submitting = false;
  pending = none;
  left = false;
}

abbrev pub is_digit : ℕ → Bool
is_digit c = leb b'0' c && leb c b'9'

-- `s.replace(/\D/g, '')`
abbrev pub digits : Text → Text
digits = keep is_digit

-- `handleMfaInput`
unfoldable pub handle_mfa_input : Texts → Text → SignIn → SignIn
handle_mfa_input x val s =
    if s.use_recovery
    then record s { mfa_code = take 11 (x.upper val) }
    else record s { mfa_code = take 6 (digits val) }

-- `switchMode`
abbrev pub to_mode : Bool → SignIn → SignIn
to_mode recovery s = record s { use_recovery = recovery; mfa_code = []; error = none }

-- `goBack`
abbrev pub to_credentials : SignIn → SignIn
to_credentials s = record s {
  step = credentials;
  mfa_code = [];
  use_recovery = false;
  error = none;
}

-- what both submit functions set before their request
abbrev pub submit : Step → SignIn → SignIn
submit p s = record s { error = none; submitting = true; pending = some p }

-- `onCredentials`, up to its request
unfoldable pub on_credentials : Texts → SignIn → SignIn × List Login
on_credentials x s = (
  submit credentials s,
  record { email = x.lower (trim s.email); password = s.password; code = none } ∷ [],
)

-- `onMfa`, up to its request
unfoldable pub on_mfa : Texts → SignIn → SignIn × List Login
on_mfa x s =
    let code = if s.use_recovery then x.upper (trim s.mfa_code) else digits s.mfa_code in
    (
      submit mfa s,
      record { email = x.lower (trim s.email); password = s.password; code = some code } ∷ [],
    )

-- `detail || t('auth.signin.error')`
abbrev pub message : Texts → Option Text → Text
message x none = x.t "auth.signin.error"
message x (some d) = if is_empty d then x.t "auth.signin.error" else d

abbrev pub is_code_required : Option Text → Bool
is_code_required none = false
is_code_required (some d) = text_eq d (codes "MFA code required")

-- the `catch` of the step that asked
abbrev on_refused : Texts → Step → Option Text → SignIn → SignIn
on_refused x credentials detail s =
    if is_code_required detail
    then record s { step = mfa; error = none }
    else record s { error = some (message x detail) }
on_refused x mfa detail s = record s { error = some (message x detail) }

-- the answer, and `finally`
unfoldable pub on_answer : Texts → Step → Answer → SignIn → SignIn
on_answer x p accepted s = record s { left = true; submitting = false; pending = none }
on_answer x p (refused detail) s = record (on_refused x p detail s) {
  submitting = false;
  pending = none;
}

abbrev pub take_answer : Texts → Option Step → Answer → SignIn → SignIn
take_answer x none a s = s
take_answer x (some p) a s = on_answer x p a s

-- the events, with the conditions under which the page shows and enables its controls
abbrev at_credentials : Step → Bool
at_credentials credentials = true
at_credentials mfa = false

-- `disabled` of the second step's button
abbrev verify_disabled : SignIn → Bool
verify_disabled s = s.submitting || (not s.use_recovery && not (length s.mfa_code == 6))

unfoldable pub handle : Texts → Event → SignIn → SignIn × List Login
unfolding handle_mfa_input on_credentials on_mfa on_answer
handle x (type_email v) s = if at_credentials s.step then (record s { email = v }, []) else (s, [])
handle x (type_password v) s =
    if at_credentials s.step then (record s { password = v }, []) else (s, [])
handle x (type_code v) s = if at_credentials s.step then (s, []) else (handle_mfa_input x v s, [])
handle x press_sign_in s =
    if at_credentials s.step && not s.submitting then on_credentials x s else (s, [])
handle x press_verify s = if at_credentials s.step || verify_disabled s then (s, []) else on_mfa x s
handle x go_back s = if at_credentials s.step then (s, []) else (to_credentials s, [])
handle x (switch_mode r) s = if at_credentials s.step then (s, []) else (to_mode r s, [])
handle x (answered a) s = (take_answer x s.pending a s, [])

unfoldable pub step_page : Texts → Event → SignIn → SignIn × List Login
unfolding handle
step_page x e s = if s.left then (s, []) else handle x e s

-- a run of the page, with all its requests
unfoldable pub run : Texts → List Event → SignIn → SignIn × List Login
unfolding step_page
run x [] s = (s, [])
run x (e ∷ es) s =
    let (s', out) = step_page x e s in let (end, more) = run x es s' in (end, out ++ more)
