-- ===== src/WorkflowEditor/Saving.antt =====
-- What the canvas shows and what the server holds.
use clerq.Prelude.{
  ◌≡◌, ◌≢◌, refl, inl, inr, false, String, eq_iff, List, [], ◌∷◌, none, some, arith, Option-cases,
}
use clerq.WorkflowEditor.{
  Node, Edge, Definition, Editor, drop_node, update_node, press_save, on_saved, on_save_failed,
  on_timer, on_refetched, on_restored, Event, connected, nodes_changed, edges_changed, dropped,
  data_updated, node_clicked, pane_clicked, save, save_succeeded, save_failed, timer_ended,
  refetched, restored, step, run,
}

-- An editor without unsaved changes shows what the server holds, and what is being saved is what it
-- shows.
pub record IsHonest (e : Editor) : Type 0 where
  pub clean : e.dirty ≡ false → e.canvas ≡ e.server
  pub sent : (d : Definition) → e.pending ≡ some d → d ≡ e.canvas

on_saved-clean :
    (e : Editor)
    → IsHonest e
    → (on_saved e).dirty ≡ false
    → (on_saved e).canvas ≡ (on_saved e).server
unfolding on_saved
on_saved-clean e h k = elim (Option-cases e.pending) [
  | inl p ↦ ground (arith, h.clean)
  | inr (d, p) ↦ ground (arith, h.sent d p)
]

on_saved-sent :
    (e : Editor)
    → IsHonest e
    → (d : Definition) → (on_saved e).pending ≡ some d
    → d ≡ (on_saved e).canvas
unfolding on_saved
on_saved-sent e h d p = elim (Option-cases e.pending) [
  | inl q ↦ ground (arith, h.sent d)
  | inr (d', q) ↦ ground arith
]

module _ {Change : Type 0} (add_edge : Edge → List Edge → List Edge)
    (change_nodes : Change → List Node → List Node)
    (change_edges : Change → List Edge → List Edge) where
  abbrev after : Event add_edge change_nodes change_edges → Editor → Editor
  after = step add_edge change_nodes change_edges

  -- The canvas is changed, and the workflow refetched, only while no save is pending, and no version
  -- is restored.
  abbrev pub IsCalm : Event add_edge change_nodes change_edges → Editor → Type 0
  IsCalm (connected _) e = e.pending ≡ none
  IsCalm (nodes_changed _) e = e.pending ≡ none
  IsCalm (edges_changed _) e = e.pending ≡ none
  IsCalm (dropped _ _) e = e.pending ≡ none
  IsCalm (data_updated _ _) e = e.pending ≡ none
  IsCalm refetched e = e.pending ≡ none
  IsCalm (restored older) e = ⊥
  IsCalm _ e = Unit

  step-IsHonest :
      (x : Event add_edge change_nodes change_edges) (e : Editor)
      → IsCalm x e
      → IsHonest e
      → IsHonest (after x e)
  unfolding step press_save on_saved on_save_failed on_timer on_refetched on_restored drop_node
      update_node
  step-IsHonest (connected edge) e q h = record { clean = λ k. cc; sent = λ d p. cc }
  step-IsHonest (nodes_changed c) e q h = record { clean = λ k. cc; sent = λ d p. cc }
  step-IsHonest (edges_changed c) e q h = record { clean = λ k. cc; sent = λ d p. cc }
  step-IsHonest (dropped id kind) e q h = record {
    clean = λ k. ground (arith, h.clean);
    sent = λ d p. ground arith;
  }
  step-IsHonest (data_updated id d) e q h = record { clean = λ k. cc; sent = λ d p. cc }
  step-IsHonest (node_clicked id) e q h = record { clean = h.clean; sent = h.sent }
  step-IsHonest pane_clicked e q h = record { clean = h.clean; sent = h.sent }
  step-IsHonest save e q h = record {
    clean = λ k. ground (arith, h.clean);
    sent = λ d p. ground (arith, h.sent d);
  }
  step-IsHonest save_succeeded e q h = record {
    clean = λ k. on_saved-clean e h k;
    sent = λ d p. on_saved-sent e h d p;
  }
  step-IsHonest save_failed e q h = record { clean = h.clean; sent = λ d p. cc }
  step-IsHonest timer_ended e q h = record {
    clean = λ k. ground (arith, h.clean);
    sent = λ d p. ground (arith, h.sent d);
  }
  step-IsHonest refetched e q h = record { clean = λ k. refl; sent = λ d p. cc }
  step-IsHonest (restored older) e q h = absurd q

  abbrev pub IsQuiet : List (Event add_edge change_nodes change_edges) → Editor → Type 0
  IsQuiet [] e = Unit
  IsQuiet (x ∷ xs) e = IsCalm x e × IsQuiet xs (after x e)

  -- It is assumed of the first state that, without the mark of unsaved changes, the canvas shows
  -- the server's definition, and that a pending save is of the canvas shown. Then, as long as the
  -- canvas is changed and the workflow refetched only while no save is pending, and no version is
  -- restored, an editor without the mark shows the definition that the server holds.
  pub canvas-run :
      (xs : List (Event add_edge change_nodes change_edges)) (e : Editor)
      → IsQuiet xs e
      → IsHonest e
      → (run add_edge change_nodes change_edges xs e).dirty ≡ false
      → (run add_edge change_nodes change_edges xs e).canvas
        ≡ (run add_edge change_nodes change_edges xs e).server
  unfolding run
  canvas-run [] e q h k = h.clean k
  canvas-run (x ∷ xs) e (calm, q) h k = canvas-run xs (after x e) q (step-IsHonest x e calm h) k

  -- A node that is dropped while a save is pending is lost without a mark, if the page refetches
  -- the workflow after the save: the canvas goes back to what was saved.
  pub run-drop_while_saving :
      (e : Editor) (id kind : String)
      → e.pending ≡ none
      → kind ≢ ""
      → let e' =
          run add_edge change_nodes change_edges
            (save ∷ dropped id kind ∷ save_succeeded ∷ refetched ∷ [])
            e in
        (e'.canvas ≡ e.canvas) × (e'.dirty ≡ false)
  unfolding run step press_save on_saved on_refetched drop_node
  run-drop_while_saving e id kind h n = ground (arith, eq_iff kind "")
