-- ===== src/NodeConfig/Examples.antt =====
-- The panel at concrete inputs; the workflow has a cycle, and an edge from a node that is gone.
use clerq.Prelude.{
  All, Text, codes, ◌++◌, map, lookup, ◌==◌, not, str_eq, false, arith, if◌then◌else◌, ◌≡◌, ◌↔◌,
  refl, String, true, has, IsDistinct, List, [], ◌∷◌,
}
use clerq.WorkflowEditor.{Node, Edge, json}
use clerq.NodeConfig.{search, upstream_groups}
use clerq.NodeConfig.Upstream.{IsBefore}
use clerq.NodeConfig.Reached.{finished}
use clerq.NodeConfig.Prompt.{Selection, bullet, apply_fmt, wrapped, prefixed, lines, selected}
use clerq.NodeConfig.Settings.{
  text, numbers, Data, DocumentType, selected as chosen, toggle_doc_type,
}
use clerq.NodeConfig.Settings.Toggle.{IsOnceId}
use clerq.NodeConfig.Settings.Gate.{has_id, text_list, is_named, selected-toggle_doc_type}
use clerq.NodeConfig.Labels.{IsLabelled, upstream_groups-IsLabelled}
use clerq.NodeConfig.Exact.{ids, has_vars, ids-upstream_groups}

abbrev node : String → String → Node
node id kind = record { id = id; kind = kind; data_of = json [] }

abbrev edge : String → String → Edge
edge a b = record { id = a; from_node = a; to_node = b }

abbrev nodes : List Node
nodes =
    node "mail" "send_email"
    ∷ node "check" "validate_documents"
    ∷ node "in" "input"
    ∷ node "end" "output"
    ∷ []

abbrev edges : List Edge
edges =
    edge "check" "mail"
    ∷ edge "in" "check"
    ∷ edge "end" "check"
    ∷ edge "mail" "check"
    ∷ edge "gone" "mail"
    ∷ []

ids-upstream_groups_test : ids (upstream_groups "mail" nodes edges) ≡ "check" ∷ "in" ∷ "mail" ∷ []
unfolding upstream_groups search clerq.NodeConfig.vars_of clerq.Prelude.lookup
ids-upstream_groups_test = refl

ids-upstream_groups_example :
    ((finished nodes edges "mail").queue ≡ [])
    × ((has "in" (ids (upstream_groups "mail" nodes edges)) ≡ true)
        ↔ (IsBefore nodes edges "mail" "in" × (has_vars nodes "in" ≡ true)))
    × IsDistinct (ids (upstream_groups "mail" nodes edges))
ids-upstream_groups_example = ids-upstream_groups "mail" "in" nodes edges

abbrev words : String → Text
words s = codes s

abbrev draft : Text
draft = codes "Dear ,\nbye"

abbrev cursor : Selection
cursor = record { start = 5; end = 5 }

apply_fmt_test :
    (apply_fmt words bullet (selected draft (record { start = 0; end = 10 }))).value
    ≡ codes "- Dear ,\n- bye"
unfolding apply_fmt wrapped prefixed lines
apply_fmt_test = refl

abbrev invoice : DocumentType
invoice = record { id = 4; name = "Invoice" }

abbrev permit : DocumentType
permit = record { id = 7; name = "Permit" }

abbrev gate : Data
gate = ("required_doc_types", numbers (4 ∷ [])) ∷ []

gate-IsOnceId : IsOnceId (chosen gate)
unfolding chosen lookup
gate-IsOnceId = (refl, tt)

selected-toggle_doc_type_example :
    (has_id 4 (chosen (toggle_doc_type (invoice ∷ permit ∷ []) permit gate))
      ≡ (if 7 == 4 then not (has_id 7 (chosen gate)) else has_id 4 (chosen gate)))
    × IsOnceId (chosen (toggle_doc_type (invoice ∷ permit ∷ []) permit gate))
    × (has "Permit" (
          text_list (
            lookup "required_doc_type_names" (toggle_doc_type (invoice ∷ permit ∷ []) permit gate)))
        ≡ is_named
            (invoice ∷ permit ∷ [])
            (chosen (toggle_doc_type (invoice ∷ permit ∷ []) permit gate))
            "Permit")
selected-toggle_doc_type_example =
    selected-toggle_doc_type (invoice ∷ permit ∷ []) permit 4 "Permit" gate gate-IsOnceId

abbrev old_condition : Data
old_condition = ("field", text "results") ∷ ("value", text "42") ∷ []

upstream_groups-IsLabelled_example : All IsLabelled (upstream_groups "mail" nodes edges)
upstream_groups-IsLabelled_example = upstream_groups-IsLabelled "mail" nodes edges
