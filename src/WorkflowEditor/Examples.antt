-- ===== src/WorkflowEditor/Examples.antt =====
-- A canvas of two nodes, on which the theorems about the editor are applied.
use clerq.Prelude.{
  ◌≡◌, ◌≢◌, refl, false, String, List, [], ◌∷◌, ◌++◌, none, some, arith, str_eq, eq_iff,
}
use clerq.WorkflowEditor.{
  Node, Edge, Definition, Editor, idle, label, Event, connected, nodes_changed, dropped, save,
  save_succeeded, timer_ended, refetched, step, run, press_save, on_saved, on_timer, on_refetched,
}
use clerq.WorkflowEditor.Saving.{IsHonest, canvas-run, run-drop_while_saving}

differ : (s t : String) → str_eq s t ≡ false → s ≢ t
differ s t h = ground (arith, eq_iff s t)

abbrev canvas : Definition
canvas = record {
  nodes =
      record { id = "a"; kind = "input"; data_of = label "input" }
      ∷ record { id = "b"; kind = "output"; data_of = label "output" }
      ∷ [];
  edges = [];
}

abbrev editor : Editor
editor = record {
  canvas = canvas;
  dirty = false;
  save_state = idle;
  selected = some "b";
  pending = none;
  timers = 0;
  server = canvas;
}

-- React Flow's functions, with changes that are removals of the first item
abbrev add_edge : Edge → List Edge → List Edge
add_edge edge edges = edges ++ edge ∷ []

abbrev drop_first {ℓ} : {A : Type ℓ} → Unit {0} → List A → List A
drop_first c [] = []
drop_first c (x ∷ xs) = xs

abbrev events : List (Event add_edge drop_first drop_first)
events =
    connected (record { id = "e"; from_node = "a"; to_node = "b" })
    ∷ nodes_changed tt
    ∷ save
    ∷ save_succeeded
    ∷ refetched
    ∷ timer_ended
    ∷ []

editor-IsHonest : IsHonest editor
editor-IsHonest = record { clean = λ k. refl; sent = λ d p. cc }

canvas-run_example :
    (run add_edge drop_first drop_first events editor).canvas
    ≡ (run add_edge drop_first drop_first events editor).server
unfolding run step press_save on_saved on_refetched on_timer
canvas-run_example =
    canvas-run add_edge drop_first drop_first events editor
      (refl, (refl, (tt, (tt, (refl, (tt, tt)))))) editor-IsHonest refl

run-drop_while_saving_example :
    let e' =
      run add_edge
        (drop_first {A = Node})
        (drop_first {A = Edge})
        (save ∷ dropped "c" "ai" ∷ save_succeeded ∷ refetched ∷ [])
        editor in
    (e'.canvas ≡ editor.canvas) × (e'.dirty ≡ false)
run-drop_while_saving_example =
    run-drop_while_saving add_edge drop_first drop_first editor "c" "ai" refl (λ e. cc)
