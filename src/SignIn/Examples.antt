-- ===== src/SignIn/Examples.antt =====
-- The log-in pages at concrete runs.
use clerq.Prelude.{
  ℕ, suc, ◌≤◌, ◌≡◌, refl, ap, arith, ◌&&◌, String, Text, codes, is_empty, Bool, true, false, Option,
  none, some, List, [], ◌∷◌, length, All, keep, map, ltb, leb, if◌then◌else◌, ◌-◌,
}
use clerq.SignIn.{
  credentials, SignIn, Login, Texts, refused, Event, type_email, type_password, type_code,
  press_sign_in, press_verify, switch_mode, answered, accepted, open_page, step_page, run,
}
use clerq.SignIn.Steps.{IsCode, IsUpper, count_answers, run-IsCode, IsShown, step_page-refused}
use clerq.SignIn.Reset as Reset
use clerq.SignIn.Reset.Requests.{IsSent, is_done, run-IsSent}

-- letters of ASCII
abbrev up : ℕ → ℕ
up c = if leb b'a' c && leb c b'z' then c - 32 else c

abbrev texts : Texts
texts = record { lower = λ s. s; upper = map up; t = codes }

abbrev log_in : List Event
log_in =
    type_email (codes " ana@x.ca ")
    ∷ type_password (codes "secret")
    ∷ press_sign_in
    ∷ press_sign_in
    ∷ answered (refused (some (codes "MFA code required")))
    ∷ type_code (codes "123 4567")
    ∷ press_verify
    ∷ press_verify
    ∷ answered accepted
    ∷ []

log_in_test :
    (run texts log_in open_page).1
    ≡ record { email = codes "ana@x.ca"; password = codes "secret"; code = none }
      ∷ record { email = codes "ana@x.ca"; password = codes "secret"; code = some (codes "123456") }
      ∷ []
unfolding run clerq.Prelude.trim clerq.Prelude.text_eq
log_in_test = refl

abbrev IsCap : ℕ → Type 0
IsCap c = up c ≡ c

up_idem : (c : ℕ) → IsCap (up c)
up_idem c = ground arith

map-up : (s : Text) → All IsCap (map up s)
map-up [] = tt
map-up (c ∷ s) = (up_idem c, map-up s)

map-up_same : (s : Text) → All IsCap s → map up s ≡ s
map-up_same [] h = refl
map-up_same (c ∷ s) (p, h) = rw p (ap (λ l. c ∷ l) (map-up_same s h))

up-IsUpper : IsUpper IsCap (map up)
up-IsUpper = record { capital = map-up; same = map-up_same }

-- a recovery code is typed in small letters, with a space before it
abbrev recover : List Event
recover =
    press_sign_in
    ∷ answered (refused (some (codes "MFA code required")))
    ∷ switch_mode true
    ∷ type_code (codes " ab12-cd34-ef56")
    ∷ press_verify
    ∷ []

recover_test :
    (run texts recover open_page).1
    ≡ record { email = []; password = []; code = none }
      ∷ record { email = []; password = []; code = some (codes "AB12-CD34-") }
      ∷ []
unfolding run clerq.Prelude.trim clerq.Prelude.text_eq
recover_test = refl

run-IsCode_example :
    All (λ (l : Login). IsCode IsCap texts l.code) (run texts recover open_page).1
    × (length (run texts recover open_page).1 ≤ suc (count_answers recover))
run-IsCode_example = run-IsCode IsCap texts recover up-IsUpper

abbrev asking : SignIn
asking = record open_page { submitting = true; pending = some credentials }

step_page-refused_example : IsShown (step_page texts (answered (refused none)) asking).0
step_page-refused_example = step_page-refused texts credentials none asking refl refl refl

abbrev reset : List Reset.Event
reset =
    Reset.validated (Reset.valid_for (some (codes "ana@x.ca")))
    ∷ Reset.type_password (codes "short")
    ∷ Reset.press_submit
    ∷ Reset.type_password (codes "long enough")
    ∷ Reset.press_submit
    ∷ Reset.type_confirm (codes "long enough")
    ∷ Reset.press_submit
    ∷ Reset.accepted
    ∷ []

run-IsSent_example :
    All (IsSent (codes "k7")) (Reset.run codes reset (Reset.open_reset codes (codes "k7"))).1
    × ((if is_done (Reset.run codes reset (Reset.open_reset codes (codes "k7"))).0.phase
          then 1
          else 0)
        ≤ length (Reset.run codes reset (Reset.open_reset codes (codes "k7"))).1)
run-IsSent_example = run-IsSent codes (codes "k7") reset

length-reset_test : length (Reset.run codes reset (Reset.open_reset codes (codes "k7"))).1 ≡ 1
unfolding Reset.run Reset.open_reset clerq.Prelude.text_eq
length-reset_test = refl
