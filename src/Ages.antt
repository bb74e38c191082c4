-- ===== src/Ages.antt =====
-- How long ago something was: `timeAgo` of frontend/src/pages/Validate.tsx, PolicyEditor.tsx and
-- frontend/src/components/VersionsModal.tsx, `formatRelativeTime` of frontend/src/pages/Dashboard.tsx,
-- and `formatTimeAgo` of frontend/src/pages/CasesPage.tsx. Times are in milliseconds; a time to come
-- has a negative difference in the source, which is below each first bound as 0 is. The translation
-- `t`, the decimal text of a number and the browser's text of a date are parameters.
pub mod Units
mod Examples
use clerq.Prelude.{
  ℕ, ◌-◌, ◌/◌, ltb, String, Text, codes, Option, none, some, [], ◌∷◌, ◌++◌, if◌then◌else◌,
}
use clerq.I18n.{Vars}

-- what the list of runs says: its key, and the count that goes into the text
pub data Ago : Type 0 where
  just_now : Ago
  seconds_ago minutes_ago hours_ago days_ago : ℕ → Ago

-- `timeAgo` of Validate.tsx
unfoldable pub run_age : ℕ → ℕ → Ago
run_age now made =
    let s = (now - made) / 1000 in
    let m = s / 60 in
    let h = m / 60 in
    let d = h / 24 in
    if ltb s 5
    then just_now
    else if ltb s 60
    then seconds_ago s
    else if ltb m 60
    then minutes_ago m
    else if ltb h 24
    then hours_ago h
    else days_ago d

abbrev pub Translate : Type 0
Translate = String → Option Vars → Text

-- `t(key, { name: n })`
abbrev pub told : Translate → (ℕ → Text) → String → String → ℕ → Text
told t show key name n = t key (some ((codes name, show n) ∷ []))

-- the text that `timeAgo` of Validate.tsx gives
unfoldable pub run_text : Translate → (ℕ → Text) → Ago → Text
run_text t show just_now = t "validate.time.justNow" none
run_text t show (seconds_ago n) = told t show "validate.time.secondsAgo" "count" n
run_text t show (minutes_ago n) = told t show "validate.time.minutesAgo" "count" n
run_text t show (hours_ago n) = told t show "validate.time.hoursAgo" "count" n
run_text t show (days_ago n) = told t show "validate.time.daysAgo" "count" n

-- `timeAgo` of VersionsModal.tsx
unfoldable pub version_age : Translate → (ℕ → Text) → ℕ → ℕ → Text
version_age t show now made =
    let m = (now - made) / 60000 in
    let h = m / 60 in
    let d = h / 24 in
    if ltb m 1
    then t "workflows.versions.justNow" none
    else if ltb m 60
    then told t show "workflows.versions.minutesAgo" "n" m
    else if ltb h 24
    then told t show "workflows.versions.hoursAgo" "n" h
    else told t show "workflows.versions.daysAgo" "n" d

-- `timeAgo` of PolicyEditor.tsx, which does not translate
unfoldable pub policy_version_age : (ℕ → Text) → ℕ → ℕ → Text
policy_version_age show now made =
    let m = (now - made) / 60000 in
    let h = m / 60 in
    if ltb m 1
    then codes "just now"
    else if ltb m 60
    then show m ++ codes "m ago"
    else if ltb h 24
    then show h ++ codes "h ago"
    else show (h / 24) ++ codes "d ago"

-- `formatRelativeTime`
unfoldable pub last_run_age : Translate → (ℕ → Text) → ℕ → ℕ → Text
last_run_age t show now made =
    let diff = now - made in
    let mins = diff / 60000 in
    let hours = diff / 3600000 in
    let days = diff / 86400000 in
    if ltb mins 1
    then t "dashboard.justNow" none
    else if ltb mins 60
    then told t show "dashboard.minutesAgo" "mins" mins
    else if ltb hours 24
    then told t show "dashboard.hoursAgo" "hours" hours
    else told t show "dashboard.daysAgo" "days" days

-- `formatTimeAgo`, which does not translate, with the date's text
unfoldable pub activity_age : (ℕ → Text) → Text → ℕ → ℕ → Text
activity_age show date now made =
    let mins = (now - made) / 60000 in
    let hrs = mins / 60 in
    let days = hrs / 24 in
    if ltb mins 1
    then codes "just now"
    else if ltb mins 60
    then show mins ++ codes "m ago"
    else if ltb hrs 24
    then show hrs ++ codes "h ago"
    else if ltb days 7
    then show days ++ codes "d ago"
    else date
