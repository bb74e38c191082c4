-- ===== src/NodeConfig/Settings/Condition.antt =====
-- `ConditionConfig`: the simple and the advanced form of a condition.
use clerq.Prelude.{
  ◌≡◌, refl, String, str_eq, Bool, true, false, Option, none, some, lookup, get_or, truthy,
  Bool-cases, inl, inr, arith, if◌then◌else◌,
}
use clerq.NodeConfig.Settings.{as_text, Data, is_custom, verdict, pick_verdict, set_custom}
use clerq.NodeConfig.Settings.Toggle.{lookup-put}

or_fail : (v : String) → get_or (truthy (some v)) "fail" ≡ (if str_eq v "" then "fail" else v)
or_fail v = ground arith

or_fail-twice :
    (o : Option String)
    → get_or (truthy (some (get_or (truthy o) "fail"))) "fail" ≡ get_or (truthy o) "fail"
or_fail-twice none = refl
or_fail-twice (some v) = elim (Bool-cases (str_eq v "")) [
  | inl bare ↦ rw bare refl
  | inr full ↦ rw full (rw full refl)
]

-- The check box shows what it was set to, a choice of a verdict leaves the form simple, and in each case
-- the verdict shown next is the one chosen or the one shown before.
is_custom-set_custom :
    (checked : Bool) (v : String) (d : Data)
    → (is_custom (set_custom checked d) ≡ checked)
      × (verdict (set_custom checked d) ≡ verdict d)
      × (is_custom (pick_verdict v d) ≡ false)
      × (verdict (pick_verdict v d) ≡ (if str_eq v "" then "fail" else v))
unfolding is_custom verdict pick_verdict set_custom
is_custom-set_custom true v d =
    (simp lookup-put, simp lookup-put, simp lookup-put, simp lookup-put (or_fail v))
is_custom-set_custom false v d = (
  simp lookup-put,
  simp lookup-put (or_fail-twice (as_text (lookup "value" d))),
  simp lookup-put,
  simp lookup-put (or_fail v),
)
