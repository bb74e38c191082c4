-- ===== src/Insights/Laws.antt =====
-- The file read back, and what a duration shows.
use clerq.Prelude.{ℕ, ◌+◌, ◌*◌, ◌≤◌, ◌<◌, ltb, some, if_cases, arith}
use clerq.Insights.{Duration, unknown, seconds, minutes, fmt_duration}

-- The duration shown is the nearest whole second, half a second going up. Its seconds can be sixty.
abbrev pub IsNearest : ℕ → Duration → Type 0
IsNearest x unknown = ⊥
IsNearest x (seconds n) = (n * 1000 ≤ x + 500) × (x < n * 1000 + 500) × (n ≤ 60)
IsNearest x (minutes m s) =
    ((m * 60 + s) * 1000 ≤ x + 500) × (x < (m * 60 + s) * 1000 + 500) × (1 ≤ m) × (s ≤ 60)

-- A duration is shown as the nearest whole second, in minutes and seconds from a minute on; the seconds
-- are at most sixty.
fmt_duration-IsNearest : (x : ℕ) → IsNearest x (fmt_duration (some x))
unfolding fmt_duration
fmt_duration-IsNearest x =
    if_cases (IsNearest x) (ltb x 60000) _ _ (λ few. ground arith) (λ many. ground arith)
