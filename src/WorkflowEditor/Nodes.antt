-- ===== src/WorkflowEditor/Nodes.antt =====
-- Changing the data of one node of the canvas.
use clerq.Prelude.{
  ◌≡◌, ◌≢◌, refl, String, str_eq, eq_iff, Bool, true, List, [], ◌∷◌, map, some, find, map_get,
  truthy, arith,
}
use clerq.WorkflowEditor.{Node, NodeData, Editor, set_data, update_node, selected_node}

abbrev pub named : String → Node → Bool
named id n = str_eq n.id id

abbrev pub ids : List Node → List String
ids = map (λ (n : Node). n.id)

ids-set_data : (id : String) (d : NodeData) (ns : List Node) → ids (set_data id d ns) ≡ ids ns
unfolding set_data
ids-set_data id d [] = refl
ids-set_data id d (n ∷ ns) = ground (arith, ids-set_data id d ns)

find-set_data_same :
    (id : String) (d : NodeData) (ns : List Node)
    → find (named id) (set_data id d ns)
      ≡ map_get (find (named id) ns) (λ n. record n { data_of = d })
unfolding set_data
find-set_data_same id d [] = refl
find-set_data_same id d (n ∷ ns) = ground (arith, find-set_data_same id d ns)

find-set_data_other :
    (id other : String) (d : NodeData) (ns : List Node)
    → other ≢ id
    → find (named other) (set_data id d ns) ≡ find (named other) ns
unfolding set_data
find-set_data_other id other d [] k = refl
find-set_data_other id other d (n ∷ ns) k =
    ground (arith, find-set_data_other id other d ns k, eq_iff n.id id, eq_iff n.id other)

-- The panel of the selected node changes that node's data, and shows the change at once. Every node
-- of another id, the ids and their order, and the edges stay, and the change is marked as unsaved.
update_node_lem :
    (e : Editor) (id other : String) (d : NodeData)
    → truthy e.selected ≡ some id
    → other ≢ id
    → let e' = update_node id d e in
      (ids e'.canvas.nodes ≡ ids e.canvas.nodes)
      × (e'.canvas.edges ≡ e.canvas.edges)
      × (selected_node e' ≡ map_get (selected_node e) (λ n. record n { data_of = d }))
      × (find (named other) e'.canvas.nodes ≡ find (named other) e.canvas.nodes)
      × (e'.dirty ≡ true)
unfolding update_node selected_node
update_node_lem e id other d h k = (
  ids-set_data id d e.canvas.nodes,
  refl,
  ground (arith, find-set_data_same id d e.canvas.nodes),
  find-set_data_other id other d e.canvas.nodes k,
  refl,
)
