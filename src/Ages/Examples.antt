-- ===== src/Ages/Examples.antt =====
-- Two hours ago, on each page.
use clerq.Prelude.{ℕ, ◌-◌, ◌≡◌, refl, Text, codes, [], ◌∷◌, ◌+◌, arith}
use clerq.I18n.{en, fr, translate}
use clerq.I18n.Strings.{dictionary}
use clerq.Ages.{
  Translate, hours_ago, run_age, run_text, version_age, policy_version_age, last_run_age,
  activity_age,
}
use clerq.Ages.Units.{IsAgo, run_age-IsAgo, ages-agree}

run_age_test : run_age 7300000 1000 ≡ hours_ago 2
unfolding run_age
run_age_test = refl

run_age-IsAgo_example : IsAgo (7200000 - 1000) (run_age 7200000 1000)
run_age-IsAgo_example = run_age-IsAgo 7200000 1000

-- one digit
abbrev digit : ℕ → Text
digit n = (b'0' + n) ∷ []

-- on a French page, the version of a policy
policy_version_age_test : policy_version_age digit 7300000 1000 ≡ codes "2h ago"
unfolding policy_version_age
policy_version_age_test = refl

ages-agree_example :
    let t : Translate = translate dictionary fr in
    let english_text = run_text (translate dictionary en) digit (run_age 7300000 1000) in
    (version_age t digit 7300000 1000 ≡ run_text t digit (run_age 7300000 1000))
    × (last_run_age t digit 7300000 1000 ≡ run_text t digit (run_age 7300000 1000))
    × (policy_version_age digit 7300000 1000 ≡ english_text)
    × (activity_age digit (codes "3 mai") 7300000 1000 ≡ english_text)
ages-agree_example = ages-agree fr digit (codes "3 mai") 7300000 1000 (omega arith) (omega arith)
