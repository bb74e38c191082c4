-- ===== src/Ages/Units.antt =====
-- What the texts say of the time that has passed, and that the pages agree on it.
use clerq.Prelude.{
  ℕ, suc, ◌-◌, ◌*◌, ◌/◌, ◌≤◌, ◌<◌, ltb, ◌≡◌, refl, sym, ◌∙◌, if◌then◌else◌, String, Text, text_eq,
  codes, some, lookup, [], ◌∷◌, ◌++◌, if_cases, arith,
}
use clerq.I18n.{Lang, en, fr, translate, interpolate, scan, value_of}
use clerq.I18n.Parity.{merge}
use clerq.I18n.Strings.{modules, dictionary}
use clerq.Ages.{
  Ago, Translate, just_now, seconds_ago, minutes_ago, hours_ago, days_ago, told, run_text, run_age,
  version_age, policy_version_age, last_run_age, activity_age,
}

-- The count is the number of whole units that have passed, and it is in the unit's range.
abbrev pub IsAgo : ℕ → Ago → Type 0
IsAgo diff just_now = diff < 5 * 1000
IsAgo diff (seconds_ago n) = (n * 1000 ≤ diff) × (diff < suc n * 1000) × (5 ≤ n) × (n < 60)
IsAgo diff (minutes_ago n) = (n * 60000 ≤ diff) × (diff < suc n * 60000) × (1 ≤ n) × (n < 60)
IsAgo diff (hours_ago n) = (n * 3600000 ≤ diff) × (diff < suc n * 3600000) × (1 ≤ n) × (n < 24)
IsAgo diff (days_ago n) = (n * 86400000 ≤ diff) × (diff < suc n * 86400000) × (1 ≤ n)

-- The list of runs says how many whole units have passed, in the greatest unit of which one has passed;
-- below five seconds, and for a time to come, it gives no count.
pub run_age-IsAgo : (now made : ℕ) → IsAgo (now - made) (run_age now made)
unfolding run_age
run_age-IsAgo now made =
    let diff = now - made in
    let s = diff / 1000 in
    let m = s / 60 in
    let h = m / 60 in
    if_cases (IsAgo diff) (ltb s 5) _ _ (λ few. ground arith)
      (λ more.
        if_cases (IsAgo diff) (ltb s 60) _ _ (λ few. ground arith)
          (λ more_s.
            if_cases (IsAgo diff) (ltb m 60) _ _ (λ few. ground arith)
              (λ more_m.
                if_cases (IsAgo diff) (ltb h 24) _ _ (λ few. ground arith)
                  (λ more_h. ground arith))))

minutes-of_seconds : (x : ℕ) → x / 1000 / 60 ≡ x / 60000
minutes-of_seconds x = omega arith

hours-of_minutes : (x : ℕ) → x / 60000 / 60 ≡ x / 3600000
hours-of_minutes x = omega arith

days-of_hours : (x : ℕ) → x / 3600000 / 24 ≡ x / 86400000
days-of_hours x = omega arith

abbrev translated : Lang → Translate
translated lang = translate dictionary lang

-- the texts of the versions' list and of the dashboard, on one unit, are those of the list of runs
abbrev AreSame : Lang → String → String → String → String → Text → Type 0
AreSame lang run_key version_key last_key name v =
    let said = translated lang run_key (some ((codes "count", v) ∷ [])) in
    (translated lang version_key (some ((codes "n", v) ∷ [])) ≡ said)
    × (translated lang last_key (some ((codes name, v) ∷ [])) ≡ said)

minutes-AreSame :
    (lang : Lang) (v : Text)
    → AreSame lang "validate.time.minutesAgo" "workflows.versions.minutesAgo" "dashboard.minutesAgo"
        "mins" v
unfolding translate interpolate scan value_of modules merge lookup text_eq
minutes-AreSame en v = (refl, refl)
minutes-AreSame fr v = (refl, refl)

hours-AreSame :
    (lang : Lang) (v : Text)
    → AreSame lang "validate.time.hoursAgo" "workflows.versions.hoursAgo" "dashboard.hoursAgo"
        "hours" v
unfolding translate interpolate scan value_of modules merge lookup text_eq
hours-AreSame en v = (refl, refl)
hours-AreSame fr v = (refl, refl)

days-AreSame :
    (lang : Lang) (v : Text)
    → AreSame lang "validate.time.daysAgo" "workflows.versions.daysAgo" "dashboard.daysAgo" "days" v
unfolding translate interpolate scan value_of modules merge lookup text_eq
days-AreSame en v = (refl, refl)
days-AreSame fr v = (refl, refl)

abbrev english : String → Text → Text
english key v = translated en key (some ((codes "count", v) ∷ []))

english_units :
    (v : Text)
    → (english "validate.time.minutesAgo" v ≡ v ++ codes "m ago")
      × (english "validate.time.hoursAgo" v ≡ v ++ codes "h ago")
      × (english "validate.time.daysAgo" v ≡ v ++ codes "d ago")
unfolding translate interpolate scan value_of modules merge lookup text_eq
english_units v = (refl, refl, refl)

-- the choice of the unit, from a minute on
abbrev in_unit : ℕ → ℕ → Text → Text → Text → Text
in_unit m h by_minutes by_hours by_days =
    if ltb m 60 then by_minutes else if ltb h 24 then by_hours else by_days

-- Each page's text, of a time that is at least a minute and less than a week ago, by its unit.
module _ (t : Translate) (show : ℕ → Text) (now made : ℕ) (k : 60000 ≤ now - made) where
  run_text-in_unit :
      let diff = now - made in
      run_text t show (run_age now made)
      ≡ in_unit
          (diff / 60000)
          (diff / 3600000)
          (told t show "validate.time.minutesAgo" "count" (diff / 60000))
          (told t show "validate.time.hoursAgo" "count" (diff / 3600000))
          (told t show "validate.time.daysAgo" "count" (diff / 86400000))
  unfolding run_age run_text
  run_text-in_unit =
      let x = now - made in
      rw (minutes-of_seconds x, hours-of_minutes x, days-of_hours x) (ground arith)

  version_age-in_unit :
      let diff = now - made in
      version_age t show now made
      ≡ in_unit
          (diff / 60000)
          (diff / 3600000)
          (told t show "workflows.versions.minutesAgo" "n" (diff / 60000))
          (told t show "workflows.versions.hoursAgo" "n" (diff / 3600000))
          (told t show "workflows.versions.daysAgo" "n" (diff / 86400000))
  unfolding version_age
  version_age-in_unit =
      let x = now - made in rw (hours-of_minutes x, days-of_hours x) (ground arith)

  last_run_age-in_unit :
      let diff = now - made in
      last_run_age t show now made
      ≡ in_unit
          (diff / 60000)
          (diff / 3600000)
          (told t show "dashboard.minutesAgo" "mins" (diff / 60000))
          (told t show "dashboard.hoursAgo" "hours" (diff / 3600000))
          (told t show "dashboard.daysAgo" "days" (diff / 86400000))
  unfolding last_run_age
  last_run_age-in_unit = ground arith

module _ (show : ℕ → Text) (date : Text) (now made : ℕ) (k : 60000 ≤ now - made) where
  policy_version_age-in_unit :
      let diff = now - made in
      policy_version_age show now made
      ≡ in_unit
          (diff / 60000)
          (diff / 3600000)
          (show (diff / 60000) ++ codes "m ago")
          (show (diff / 3600000) ++ codes "h ago")
          (show (diff / 86400000) ++ codes "d ago")
  unfolding policy_version_age
  policy_version_age-in_unit =
      let x = now - made in rw (hours-of_minutes x, days-of_hours x) (ground arith)

  activity_age-in_unit :
      let diff = now - made in
      diff < 7 * 86400000
      → activity_age show date now made
        ≡ in_unit
            (diff / 60000)
            (diff / 3600000)
            (show (diff / 60000) ++ codes "m ago")
            (show (diff / 3600000) ++ codes "h ago")
            (show (diff / 86400000) ++ codes "d ago")
  unfolding activity_age
  activity_age-in_unit h =
      let x = now - made in rw (hours-of_minutes x, days-of_hours x) (ground arith)

in_unit-eq :
    (m h : ℕ) {a b c a' b' c' : Text}
    → a ≡ a'
    → b ≡ b'
    → c ≡ c'
    → in_unit m h a b c ≡ in_unit m h a' b' c'
in_unit-eq m h p q r = λ i. in_unit m h (p i) (q i) (r i)

-- Of a time that is at least a minute and less than a week ago: in either language, with the
-- application's string tables, the list of a workflow's versions and the dashboard give the text
-- that the list of runs gives; the list of a policy's versions and the list of cases give, in
-- either language, the text that the list of runs gives in English.
pub ages-agree :
    (lang : Lang) (show : ℕ → Text) (date : Text) (now made : ℕ)
    → 60000 ≤ now - made
    → now - made < 7 * 86400000
    → let t : Translate = translate dictionary lang in
      let english_text = run_text (translate dictionary en) show (run_age now made) in
      (version_age t show now made ≡ run_text t show (run_age now made))
      × (last_run_age t show now made ≡ run_text t show (run_age now made))
      × (policy_version_age show now made ≡ english_text)
      × (activity_age show date now made ≡ english_text)
ages-agree lang show date now made k w =
    let x = now - made in
    let m = show (x / 60000) in
    let h = show (x / 3600000) in
    let d = show (x / 86400000) in
    let t : Translate = translate dictionary lang in
    let said = sym (run_text-in_unit t show now made k) in
    let english_said =
      in_unit-eq (x / 60000) (x / 3600000) (sym (english_units m).0) (sym (english_units h).1)
        (sym (english_units d).2)
      ∙ sym (run_text-in_unit (translated en) show now made k) in
    (
      version_age-in_unit t show now made k
          ∙ in_unit-eq (x / 60000) (x / 3600000) (minutes-AreSame lang m).0 (hours-AreSame lang h).0
              (days-AreSame lang d).0
          ∙ said,
      last_run_age-in_unit t show now made k
          ∙ in_unit-eq (x / 60000) (x / 3600000) (minutes-AreSame lang m).1 (hours-AreSame lang h).1
              (days-AreSame lang d).1
          ∙ said,
      policy_version_age-in_unit show date now made k ∙ english_said,
      activity_age-in_unit show date now made k w ∙ english_said,
    )
