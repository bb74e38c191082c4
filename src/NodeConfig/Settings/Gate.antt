-- ===== src/NodeConfig/Settings/Gate.antt =====
-- `CompletenessGateConfig`: the document types that a gate requires.
use clerq.Prelude.{
  ℕ, ◌==◌, ◌≡◌, refl, String, str_eq, has, ==_refl, Bool, not, ◌&&◌, Option, some, List, [], ◌∷◌,
  map, keep, some_of, lookup, arith, if◌then◌else◌,
}
use clerq.NodeConfig.Settings.{Json, texts, Data, toggle, DocumentType, selected, toggle_doc_type}
use clerq.NodeConfig.Settings.Toggle.{
  lookup-put, has_item, has-toggle, toggle-IsSingle, IsOnceId, ==-≡,
}

abbrev pub has_id : ℕ → List ℕ → Bool
has_id = has_item ◌==◌

-- the type's name is one of those that the data stores
abbrev pub text_list : Option Json → List String
text_list (some (texts xs)) = xs
text_list _ = []

-- some listed type of the name is among the ids
abbrev pub is_named : List DocumentType → List ℕ → String → Bool
is_named types ids name =
    some_of (λ (t : DocumentType). has_id t.id ids && str_eq t.name name) types

has-names :
    (name : String) (ids : List ℕ) (types : List DocumentType)
    → has name
        (map (λ (t : DocumentType). t.name) (keep (λ (t : DocumentType). has_id t.id ids) types))
      ≡ is_named types ids name
has-names name ids [] = refl
has-names name ids (t ∷ types) = ground (arith, has-names name ids types)

-- Where no id is stored twice: a click on a document type switches that type's id and no other,
-- no id is stored twice behind it either, and the names stored with the ids are just those of the
-- listed types whose ids are stored.
pub selected-toggle_doc_type :
    (types : List DocumentType) (dt : DocumentType) (i : ℕ) (name : String) (d : Data)
    → IsOnceId (selected d)
    → (has_id i (selected (toggle_doc_type types dt d))
        ≡ (if dt.id == i then not (has_id dt.id (selected d)) else has_id i (selected d)))
      × IsOnceId (selected (toggle_doc_type types dt d))
      × (has name (text_list (lookup "required_doc_type_names" (toggle_doc_type types dt d)))
          ≡ is_named types (selected (toggle_doc_type types dt d)) name)
unfolding selected toggle_doc_type
selected-toggle_doc_type types dt i name d h =
    let ids = toggle ◌==◌ dt.id (selected d) in
    simp lookup-put (
      has-toggle ◌==◌ ==-≡ ==_refl i dt.id (selected d),
      toggle-IsSingle ◌==◌ ==-≡ ==_refl dt.id (selected d) h,
      has-names name ids types,
    )
