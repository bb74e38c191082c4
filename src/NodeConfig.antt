-- ===== src/NodeConfig.antt =====
-- frontend/src/components/NodeConfigPanel.tsx: the panel in which a node of a workflow is set up.
-- This file: the variables that the nodes before it offer (`getUpstreamVarGroups`).
pub mod Upstream
pub mod Reached
pub mod Exact
pub mod Labels
pub mod Prompt
pub mod Settings
mod Examples
use clerq.Prelude.{
  ℕ, zero, suc, String, str_eq, Bool, true, false, not, ◌&&◌, ◌||◌, has, Option, none, some, List,
  [], ◌∷◌, ◌++◌, map, keep, find, is_some, length, get_or, lookup, if◌then◌else◌,
}
use clerq.WorkflowEditor.{Node, Edge}

pub record VarDef : Type 0 where
  pub key : String
  pub label : String

pub record VarGroup : Type 0 where
  pub node_id : String
  pub node_type : String
  pub node_label : String
  pub vars : List VarDef

abbrev var : String → String → VarDef
var key label = record { key = key; label = label }

-- `NODE_OUTPUT_VARS`
abbrev pub node_output_vars : List (String × List VarDef)
node_output_vars =
    (
      "input",
      var "document_id" "nodeconfig.var.document_id"
          ∷ var "file_path" "nodeconfig.var.file_path"
          ∷ var "mime_type" "nodeconfig.var.mime_type"
          ∷ [],
    )
    ∷ (
      "email_input",
      var "subject" "nodeconfig.var.subject"
          ∷ var "from" "nodeconfig.var.from"
          ∷ var "to" "nodeconfig.var.to"
          ∷ var "body" "nodeconfig.var.body"
          ∷ [],
    )
    ∷ (
      "pdf_to_images",
      var "image_paths" "nodeconfig.var.image_paths"
          ∷ var "page_count" "nodeconfig.var.page_count"
          ∷ var "document_id" "nodeconfig.var.document_id"
          ∷ [],
    )
    ∷ (
      "validate_documents",
      var "overall" "nodeconfig.var.overall"
          ∷ var "results" "nodeconfig.var.results"
          ∷ var "policy_name" "nodeconfig.var.policy_name"
          ∷ [],
    )
    ∷ ("ai", var "ai_response" "nodeconfig.var.ai_response" ∷ [])
    ∷ (
      "send_email",
      var "sent_to" "nodeconfig.var.sent_to"
          ∷ var "sent_subject" "nodeconfig.var.sent_subject"
          ∷ [],
    )
    ∷ []

-- `NODE_TYPE_LABELS`
abbrev node_type_labels : List (String × String)
node_type_labels =
    ("input", "nodeconfig.typeLabel.input")
    ∷ ("email_input", "nodeconfig.typeLabel.email_input")
    ∷ ("pdf_to_images", "nodeconfig.typeLabel.pdf_to_images")
    ∷ ("validate_documents", "nodeconfig.typeLabel.validate_documents")
    ∷ ("ai", "nodeconfig.typeLabel.ai")
    ∷ ("send_email", "nodeconfig.typeLabel.send_email")
    ∷ ("output", "nodeconfig.typeLabel.output")
    ∷ ("show_results", "nodeconfig.typeLabel.show_results")
    ∷ []

-- `NODE_OUTPUT_VARS[src.type ?? ''] ?? []`
unfoldable pub vars_of : Node → List VarDef
vars_of n = get_or (lookup n.kind node_output_vars) []

abbrev pub node_at : List Node → String → Option Node
node_at nodes id = find (λ (n : Node). str_eq n.id id) nodes

-- The state of the search: the queue's first item is its head.
pub record Search : Type 0 where
  pub groups : List VarGroup
  pub visited : List String
  pub queue : List String

abbrev pub group_of : String → Node → List VarGroup
group_of id n = elim (vars_of n) [
  | [] ↦ []
  | v ∷ vs ↦
      record {
        node_id = id;
        node_type = n.kind;
        node_label = get_or (lookup n.kind node_type_labels) n.kind;
        vars = v ∷ vs;
      }
      ∷ []
]

-- the source of an edge that was not visited before
abbrev pub reach : Option Node → String → Search → Search
reach none id s = record s { visited = id ∷ s.visited }
reach (some n) id s = record {
  groups = s.groups ++ group_of id n;
  visited = id ∷ s.visited;
  queue = s.queue ++ id ∷ [];
}

-- one round of the inner loop
unfoldable pub visit_edge : List Node → Edge → Search → Search
visit_edge nodes e s =
    if has e.from_node s.visited then s else reach (node_at nodes e.from_node) e.from_node s

-- the inner loop
unfoldable pub visit : List Node → List Edge → Search → Search
unfolding visit_edge
visit nodes [] s = s
visit nodes (e ∷ es) s = visit nodes es (visit_edge nodes e s)

-- `edges.filter(e => e.target === current)`
abbrev pub incoming : String → List Edge → List Edge
incoming id = keep (λ (e : Edge). str_eq e.to_node id)

-- the outer loop
unfoldable pub search : List Node → List Edge → ℕ → Search → Search
unfolding visit
search nodes edges zero s = s
search nodes edges (suc k) s = elim s.queue [
  | [] ↦ s
  | current ∷ rest ↦
      search nodes edges k (visit nodes (incoming current edges) (record s { queue = rest }))
]

abbrev pub begin : String → Search
begin id = record { groups = []; visited = []; queue = id ∷ [] }

-- `getUpstreamVarGroups`. Each round takes one id from the queue, and only the source of an edge,
-- and only once, is added to it: one round more than there are edges is enough.
unfoldable pub upstream_groups : String → List Node → List Edge → List VarGroup
upstream_groups id nodes edges = (search nodes edges (suc (length edges)) (begin id)).groups
