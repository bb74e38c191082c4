-- ===== src/SignIn/Reset.antt =====
-- frontend/src/pages/ResetPasswordPage.tsx: a new password is set with the token of a link.
pub mod Requests
use clerq.Prelude.{
  ℕ, ltb, String, Text, text_eq, is_empty, Bool, true, false, not, ◌&&◌, ◌||◌, Option, none, some,
  get_or, List, [], ◌∷◌, ◌++◌, length, if◌then◌else◌,
}

pub data Phase : Type 0 where
  loading invalid ready done : Phase

pub record Reset : Type 0 where
  pub token : Text
  pub phase : Phase
  pub email : Text
  pub invalid_msg : Text
  pub password : Text
  pub confirm : Text
  pub error : Option Text
  pub submitting : Bool

-- the body of `POST /auth/reset-password`
pub record NewPassword : Type 0 where
  pub token : Text
  pub new_password : Text

-- the answer of `POST /auth/reset-password/validate`
pub data Validation : Type 0 where
  valid_for : Option Text → Validation
  not_valid : Option Text → Validation
  failed : Validation

pub data Event : Type 0 where
  validated : Validation → Event
  type_password type_confirm : Text → Event
  press_submit accepted : Event
  refused : Option Text → Event

abbrev pub is_loading : Phase → Bool
is_loading loading = true
is_loading _ = false

abbrev pub is_ready : Phase → Bool
is_ready ready = true
is_ready _ = false

module _ (t : String → Text) where
  -- the page once its effect has run: without a token nothing is asked
  unfoldable pub open_reset : Text → Reset
  open_reset token = record {
    token = token;
    phase = if is_empty token then invalid else loading;
    email = [];
    invalid_msg = if is_empty token then t "auth.resetPassword.invalid.body" else [];
    password = [];
    confirm = [];
    error = none;
    submitting = false;
  }

  -- the answer to the effect's request
  unfoldable pub on_validated : Validation → Reset → Reset
  on_validated (valid_for email) s = record s { email = get_or email []; phase = ready }
  on_validated (not_valid error) s = record s {
    invalid_msg = get_or error (t "auth.resetPassword.invalid.body");
    phase = invalid;
  }
  on_validated failed s = record s {
    invalid_msg = t "auth.resetPassword.invalid.body";
    phase = invalid;
  }

  -- `onSubmit`, up to its request
  unfoldable pub on_submit : Reset → Reset × List NewPassword
  on_submit s =
      if ltb (length s.password) 8
      then (record s { error = some (t "auth.resetPassword.error.short") }, [])
      else if not (text_eq s.password s.confirm)
      then (record s { error = some (t "auth.resetPassword.error.mismatch") }, [])
      else (
        record s { error = none; submitting = true },
        record { token = s.token; new_password = s.password } ∷ [],
      )

  -- the events, where the page shows the control and the request is open
  unfoldable pub handle : Event → Reset → Reset × List NewPassword
  unfolding on_validated on_submit
  handle (validated v) s = if is_loading s.phase then (on_validated v s, []) else (s, [])
  handle (type_password v) s = if is_ready s.phase then (record s { password = v }, []) else (s, [])
  handle (type_confirm v) s = if is_ready s.phase then (record s { confirm = v }, []) else (s, [])
  handle press_submit s = if is_ready s.phase && not s.submitting then on_submit s else (s, [])
  handle accepted s =
      if s.submitting then (record s { phase = done; submitting = false }, []) else (s, [])
  handle (refused detail) s =
      if s.submitting
      then (
        record s {
          error = some (get_or detail (t "auth.resetPassword.invalid.body"));
          submitting = false;
        },
        [],
      )
      else (s, [])

  unfoldable pub run : List Event → Reset → Reset × List NewPassword
  unfolding handle
  run [] s = (s, [])
  run (e ∷ es) s = let (s', out) = handle e s in let (end, more) = run es s' in (end, out ++ more)
