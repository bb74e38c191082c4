-- ===== src/NodeConfig/Labels.antt =====
-- Each label that the panel shows for a variable or its node has a text in the string tables.
use clerq.Prelude.{
  ℕ, zero, suc, ◌≡◌, refl, sym, subst, String, str_eq, eq_iff, Bool, true, ◌&&◌, has, Option, none,
  some, List, [], ◌∷◌, All, All-append, All-every, every, is_some, length, lookup, get_or, arith,
  Bool-cases, inl, inr,
}
use clerq.I18n.Strings.{modules, dictionary}
use clerq.I18n.Parity.{merge}
use clerq.WorkflowEditor.{Node, Edge}
use clerq.NodeConfig.Reached.{search-empty}
use clerq.NodeConfig.{
  Search, VarDef, VarGroup, node_output_vars, node_type_labels, vars_of, node_at, group_of, reach,
  visit_edge, visit, incoming, search, begin, upstream_groups,
}

-- The key has an English text.
abbrev pub has_string : String → Bool
has_string key = is_some (lookup key dictionary.english)

abbrev pub is_labelled : String → List VarDef → Bool
is_labelled label vars = has_string label && every (λ (v : VarDef). has_string v.label) vars

abbrev label_of : String → String
label_of kind = get_or (lookup kind node_type_labels) kind

-- a kind of node, with its variables: where it has none, no label is shown
abbrev is_shown : String → List VarDef → Bool
is_shown kind [] = true
is_shown kind (v ∷ vs) = is_labelled (label_of kind) (v ∷ vs)

table-shown : every (λ (kind, vars). is_shown kind vars) node_output_vars ≡ true
unfolding lookup modules merge
table-shown = refl

lookup-IsShown :
    (m : List (String × List VarDef)) (k : String)
    → All (λ (kind, vars). is_shown kind vars ≡ true) m
    → is_shown k (get_or (lookup k m) []) ≡ true
unfolding lookup
lookup-IsShown [] k h = refl
lookup-IsShown ((j, v) ∷ m) k (p, h) = elim (Bool-cases (str_eq j k)) [
  | inl same ↦ rw same (subst (λ i. is_shown i v ≡ true) ((eq_iff j k).0 same) p)
  | inr other ↦ rw other (lookup-IsShown m k h)
]

abbrev pub IsLabelled : VarGroup → Type 0
IsLabelled g = is_labelled g.node_label g.vars ≡ true

group_of-IsLabelled : (id : String) (n : Node) → All IsLabelled (group_of id n)
unfolding vars_of
group_of-IsLabelled id n = go (vars_of n) (
    lookup-IsShown node_output_vars n.kind
      (All-every (λ (kind, vars). is_shown kind vars) node_output_vars table-shown))
  where
    go :
        (vs : List VarDef)
        → is_shown n.kind vs ≡ true
        → All IsLabelled (elim vs [
          | [] ↦ []
          | v ∷ vs ↦
              record {
                node_id = id;
                node_type = n.kind;
                node_label = label_of n.kind;
                vars = v ∷ vs;
              }
              ∷ []
        ])
    go [] h = tt
    go (v ∷ vs) h = (h, tt)

reach-IsLabelled :
    (n : Option Node) (id : String) (s : Search)
    → All IsLabelled s.groups
    → All IsLabelled (reach n id s).groups
reach-IsLabelled none id s h = h
reach-IsLabelled (some n) id s h =
    All-append IsLabelled s.groups (group_of id n) h (group_of-IsLabelled id n)

visit_edge-IsLabelled :
    (nodes : List Node) (e : Edge) (s : Search)
    → All IsLabelled s.groups
    → All IsLabelled (visit_edge nodes e s).groups
unfolding visit_edge
visit_edge-IsLabelled nodes e s h = elim (Bool-cases (has e.from_node s.visited)) [
  | inl seen ↦ rw seen h
  | inr fresh ↦ rw fresh (reach-IsLabelled (node_at nodes e.from_node) e.from_node s h)
]

visit-IsLabelled :
    (nodes : List Node) (es : List Edge) (s : Search)
    → All IsLabelled s.groups
    → All IsLabelled (visit nodes es s).groups
unfolding visit
visit-IsLabelled nodes [] s h = h
visit-IsLabelled nodes (e ∷ es) s h =
    visit-IsLabelled nodes es (visit_edge nodes e s) (visit_edge-IsLabelled nodes e s h)

search-IsLabelled :
    (nodes : List Node) (edges : List Edge) (fuel : ℕ) (q : List String) (s : Search)
    → s.queue ≡ q
    → All IsLabelled s.groups
    → All IsLabelled (search nodes edges fuel s).groups
unfolding search
search-IsLabelled nodes edges zero q s e h = h
search-IsLabelled nodes edges (suc k) [] s e h =
    subst (λ (r : Search). All IsLabelled r.groups) (sym (search-empty nodes edges (suc k) s e)) h
search-IsLabelled nodes edges (suc k) (current ∷ rest) s e h =
    let r = visit nodes (incoming current edges) (record s { queue = rest }) in
    let same : search nodes edges (suc k) s ≡ search nodes edges k r = ground arith in
    subst (λ (t : Search). All IsLabelled t.groups) (sym same)
      (search-IsLabelled nodes edges k r.queue r refl
        (visit-IsLabelled nodes (incoming current edges) (record s { queue = rest }) h))

-- Each group that is offered shows a name for its node and one for each variable that the string tables
-- have; a kind of node for which they have no name offers no variables.
pub upstream_groups-IsLabelled :
    (target : String) (nodes : List Node) (edges : List Edge)
    → All IsLabelled (upstream_groups target nodes edges)
unfolding upstream_groups
upstream_groups-IsLabelled target nodes edges =
    search-IsLabelled nodes edges (suc (length edges)) (target ∷ []) (begin target) refl tt
