-- ===== src/WorkflowEditor.antt =====
-- frontend/src/pages/WorkflowEditor.tsx: the canvas of a workflow and its saving. React Flow's
-- functions that change the lists (`addEdge`, and the changes behind `onNodesChange` and
-- `onEdgesChange`) are parameters; positions are not modelled.
pub mod Saving
pub mod Nodes
mod Examples
use clerq.Prelude.{
  ℕ, zero, suc, String, str_eq, Text, Bool, true, false, Option, none, some, List, [], ◌∷◌, ◌++◌,
  map, find, is_some, then_get, map_get, truthy, if◌then◌else◌,
}

-- A node's data: the defaults of a dropped node, or the JSON text of any other object.
pub data NodeData : Type 0 where
  verdict_condition empty_gate : NodeData
  label : String → NodeData
  json : Text → NodeData

-- `FlowNode`
pub record Node : Type 0 where
  pub id : String
  pub kind : String
  pub data_of : NodeData

-- `FlowEdge`
pub record Edge : Type 0 where
  pub id : String
  pub from_node : String
  pub to_node : String

-- `WorkflowDefinition`
pub record Definition : Type 0 where
  pub nodes : List Node
  pub edges : List Edge

pub data SaveState : Type 0 where
  idle saving saved : SaveState

-- `pending` is the definition that was sent and not answered; `timers` counts the two-second timers;
-- `server` is the definition that the server holds.
pub record Editor : Type 0 where
  pub canvas : Definition
  pub dirty : Bool
  pub save_state : SaveState
  pub selected : Option String
  pub pending : Option Definition
  pub timers : ℕ
  pub server : Definition

-- the defaults of `onDrop`
unfoldable pub default_data : String → NodeData
default_data kind =
    if str_eq kind "condition"
    then verdict_condition
    else if str_eq kind "completeness_gate"
    then empty_gate
    else label kind

-- `nds.map(n => n.id === nodeId ? { ...n, data } : n)`
unfoldable pub set_data : String → NodeData → List Node → List Node
set_data id d nodes =
    map (λ (n : Node). if str_eq n.id id then record n { data_of = d } else n) nodes

abbrev touched : List Node → List Edge → Editor → Editor
touched nodes edges e = record e { canvas = record { nodes = nodes; edges = edges }; dirty = true }

-- `onDrop`, with the id that `uid` gives; without a kind nothing happens
unfoldable pub drop_node : String → String → Editor → Editor
unfolding default_data
drop_node id kind e =
    if str_eq kind ""
    then e
    else touched
        (e.canvas.nodes ++ record { id = id; kind = kind; data_of = default_data kind } ∷ [])
        e.canvas.edges e

-- `handleNodeDataUpdate`
unfoldable pub update_node : String → NodeData → Editor → Editor
unfolding set_data
update_node id d e = touched (set_data id d e.canvas.nodes) e.canvas.edges e

-- `selectedNode`
unfoldable pub selected_node : Editor → Option Node
selected_node e =
    then_get (truthy e.selected) (λ id. find (λ (n : Node). str_eq n.id id) e.canvas.nodes)

-- `save` up to its `await`; the button is disabled while the request is pending
unfoldable pub press_save : Editor → Editor
press_save e =
    if is_some e.pending then e else record e { save_state = saving; pending = some e.canvas }

-- behind the `await`
unfoldable pub on_saved : Editor → Editor
on_saved e = elim e.pending [
  | none ↦ e
  | some d ↦ record e {
    dirty = false;
    save_state = saved;
    pending = none;
    timers = suc e.timers;
    server = d;
  }
]

-- The request fails: `save` has no `catch`, so it does nothing more.
unfoldable pub on_save_failed : Editor → Editor
on_save_failed e = record e { pending = none }

unfoldable pub on_timer : Editor → Editor
on_timer e = elim e.timers [ zero ↦ e | suc n ↦ record e { save_state = idle; timers = n } ]

-- The effect on `workflow`: a refetch that brought anything new puts the server's definition on the
-- canvas.
unfoldable pub on_refetched : Editor → Editor
on_refetched e = record e { canvas = e.server }

-- `handleRestored`, after the server went back to an older version
unfoldable pub on_restored : Definition → Editor → Editor
on_restored older e = record e { dirty = false; server = older }

module _ {Change : Type 0} (add_edge : Edge → List Edge → List Edge)
    (change_nodes : Change → List Node → List Node)
    (change_edges : Change → List Edge → List Edge) where
  pub data Event : Type 0 where
    connected : Edge → Event
    nodes_changed edges_changed : Change → Event
    dropped : String → String → Event
    data_updated : String → NodeData → Event
    node_clicked : String → Event
    pane_clicked save save_succeeded save_failed timer_ended refetched : Event
    restored : Definition → Event

  unfoldable pub step : Event → Editor → Editor
  unfolding drop_node update_node press_save on_saved on_save_failed on_timer on_refetched
      on_restored
  step (connected edge) e = touched e.canvas.nodes (add_edge edge e.canvas.edges) e
  step (nodes_changed c) e = touched (change_nodes c e.canvas.nodes) e.canvas.edges e
  step (edges_changed c) e = touched e.canvas.nodes (change_edges c e.canvas.edges) e
  step (dropped id kind) e = drop_node id kind e
  step (data_updated id d) e = update_node id d e
  step (node_clicked id) e = record e { selected = some id }
  step pane_clicked e = record e { selected = none }
  step save e = press_save e
  step save_succeeded e = on_saved e
  step save_failed e = on_save_failed e
  step timer_ended e = on_timer e
  step refetched e = on_refetched e
  step (restored older) e = on_restored older e

  unfoldable pub run : List Event → Editor → Editor
  unfolding step
  run [] e = e
  run (x ∷ xs) e = run xs (step x e)
