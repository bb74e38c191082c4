-- ===== src/NodeConfig/Settings.antt =====
-- frontend/src/components/NodeConfigPanel.tsx: what the panel writes into a node's data. The data is
-- an object: its properties in their order, each once.
pub mod Toggle
pub mod Gate
pub mod Condition
use clerq.Prelude.{
  ℕ, ◌==◌, String, str_eq, Bool, true, false, not, ◌&&◌, ◌||◌, Option, none, some, List, [], ◌∷◌,
  ◌++◌, map, keep, some_of, lookup, get_or, truthy, if◌then◌else◌,
}

-- The values that the panel reads and writes.
pub data Json : Type 0 where
  null : Json
  text : String → Json
  number : ℕ → Json
  numbers : List ℕ → Json
  texts : List String → Json

abbrev pub Data : Type 0
Data = List (String × Json)

abbrev pub put : String → Json → Data → Data
put k v [] = (k, v) ∷ []
put k v ((j, w) ∷ d) = let rest = put k v d in if str_eq j k then (j, v) ∷ d else (j, w) ∷ rest

-- `update`: `{ ...data, ...patch }`
abbrev pub update : Data → Data → Data
update [] d = d
update ((k, v) ∷ patch) d = update patch (put k v d)

-- `set`: `{ ...data, [key]: value }`
abbrev pub set_key : String → Json → Data → Data
set_key k v d = update ((k, v) ∷ []) d

-- `xs.includes(k) ? xs.filter(x => x !== k) : [...xs, k]`, for a test of equality
abbrev pub toggle {ℓ} : {A : Type ℓ} → (A → A → Bool) → A → List A → List A
toggle eq k xs = if some_of (λ x. eq x k) xs then keep (λ x. not (eq x k)) xs else xs ++ k ∷ []

-- `EMAIL_FIELDS`, the keys
abbrev pub email_fields : List String
email_fields = "subject" ∷ "from" ∷ "to" ∷ "body" ∷ "attachments" ∷ []

abbrev field_list : Option Json → Option (List String)
field_list (some (texts xs)) = some xs
field_list _ = none

-- `active`, of `EmailInputConfig`
unfoldable pub active : Data → List String
active d = get_or (field_list (lookup "fields" d)) email_fields

-- `toggle`, of `EmailInputConfig`
unfoldable pub toggle_field : String → Data → Data
toggle_field k d = set_key "fields" (texts (toggle str_eq k (active d))) d

pub record DocumentType : Type 0 where
  pub id : ℕ
  pub name : String

abbrev number_list : Option Json → List ℕ
number_list (some (numbers xs)) = xs
number_list _ = []

-- `selected`, of `CompletenessGateConfig`
unfoldable pub selected : Data → List ℕ
selected d = number_list (lookup "required_doc_types" d)

abbrev includes : List ℕ → ℕ → Bool
includes ids i = some_of (λ x. x == i) ids

-- `toggle`, of `CompletenessGateConfig`
unfoldable pub toggle_doc_type : List DocumentType → DocumentType → Data → Data
toggle_doc_type doc_types dt d =
    let ids = toggle ◌==◌ dt.id (selected d) in
    let names =
      map (λ (t : DocumentType). t.name)
        (keep (λ (t : DocumentType). includes ids t.id) doc_types) in
    update (("required_doc_types", numbers ids) ∷ ("required_doc_type_names", texts names) ∷ []) d

-- a value as the text that the code takes it for
abbrev pub as_text : Option Json → Option String
as_text (some (text s)) = some s
as_text _ = none

abbrev is_text : String → Option Json → Bool
is_text s (some (text t)) = str_eq t s
is_text s _ = false

-- `data.field != null && data.field !== '' && data.field !== 'overall'`
abbrev is_other_field : Option Json → Bool
is_other_field none = false
is_other_field (some null) = false
is_other_field (some v) = not (is_text "" (some v)) && not (is_text "overall" (some v))

-- `isCustom`, of `ConditionConfig`
unfoldable pub is_custom : Data → Bool
is_custom d = is_text "custom" (lookup "mode" d) || is_other_field (lookup "field" d)

-- `verdict`
unfoldable pub verdict : Data → String
verdict d = get_or (truthy (as_text (lookup "value" d))) "fail"

-- the choice of a verdict
unfoldable pub pick_verdict : String → Data → Data
pick_verdict v = update (
    ("mode", text "verdict")
    ∷ ("field", text "overall")
    ∷ ("op", text "eq")
    ∷ ("value", text v)
    ∷ [])

-- the three inputs of the advanced form
unfoldable pub set_field : String → Data → Data
set_field s = update (("field", text s) ∷ [])

unfoldable pub set_op : String → Data → Data
set_op s = update (("op", text s) ∷ [])

unfoldable pub set_value : String → Data → Data
set_value s = update (("value", text s) ∷ [])

-- the check box of the advanced form
unfoldable pub set_custom : Bool → Data → Data
set_custom checked d =
    if checked
    then update (("mode", text "custom") ∷ []) d
    else update
        (("mode", text "verdict")
          ∷ ("field", text "overall")
          ∷ ("op", text "eq")
          ∷ ("value", text (verdict d))
          ∷ [])
        d
