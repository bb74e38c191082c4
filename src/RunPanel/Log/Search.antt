-- ===== src/RunPanel/Log/Search.antt =====
-- What the log viewer lists, and how high it is.
use clerq.Prelude.{
  ℕ, ◌*◌, ◌≤◌, max, ◌≡◌, refl, Text, true, List, [], ◌∷◌, All, if_cases, arith, ◌⊎◌, inl, inr,
  Bool-cases,
}
use clerq.RunPanel.Log.{
  Viewer, Event, escape, find_key, press_search, clear_search, drag_up, toggle_max, close, jump,
  type_query, drag_start, drag_move, scrolled, min_h, default_h, open_viewer, filtered, on_escape,
  on_drag_move, handle, run,
}

-- Escape and the search bar's own button show all lines again, and Escape closes the viewer where no search
-- bar is shown; the button of the tool bar hides the search bar but leaves the lines filtered.
filtered-handle :
    (lower : Text → Text) (logs : List Text) (v : Viewer)
    → (filtered lower logs (handle clear_search v) ≡ logs)
      × (((handle escape v).closed ≡ true) ⊎ (filtered lower logs (handle escape v) ≡ logs))
      × (filtered lower logs (handle press_search v) ≡ filtered lower logs v)
      × ((handle escape (handle escape v)).closed ≡ true)
unfolding filtered handle on_escape
filtered-handle lower logs v = elim (Bool-cases v.show_search) [
  | inl shown ↦ (refl, inr (rw shown refl), refl, rw shown refl)
  | inr hidden ↦ (refl, inl (rw hidden refl), refl, ground arith)
]

-- The window's height in the event is the given one.
abbrev pub IsWindow : ℕ → Event → Type 0
IsWindow inner (drag_move y i) = i ≡ inner
IsWindow inner _ = Unit

abbrev IsFit : ℕ → Viewer → Type 0
IsFit inner v = (min_h ≤ v.height) × (v.height ≤ max default_h (9 * inner))

handle-IsFit :
    (inner : ℕ) (e : Event) (v : Viewer)
    → IsWindow inner e
    → IsFit inner v
    → IsFit inner (handle e v)
unfolding handle on_escape on_drag_move
handle-IsFit inner escape v w h = if_cases (IsFit inner) v.show_search _ _ (λ _. h) (λ _. h)
handle-IsFit inner (type_query q) v w h = if_cases (IsFit inner) v.show_search _ _ (λ _. h) (λ _. h)
handle-IsFit inner (drag_move y i) v w h =
    if_cases (IsFit inner) v.dragging _ _ (λ _. (omega arith, omega (arith, w))) (λ _. h)
handle-IsFit inner find_key v w h = h
handle-IsFit inner press_search v w h = h
handle-IsFit inner clear_search v w h = h
handle-IsFit inner (drag_start y) v w h = h
handle-IsFit inner drag_up v w h = h
handle-IsFit inner toggle_max v w h = h
handle-IsFit inner (scrolled r) v w h = h
handle-IsFit inner jump v w h = h
handle-IsFit inner close v w h = h

run-IsFit :
    (inner : ℕ) (es : List Event) (v : Viewer)
    → All (IsWindow inner) es
    → IsFit inner v
    → IsFit inner (run es v)
unfolding run
run-IsFit inner [] v w h = h
run-IsFit inner (e ∷ es) v (k, w) h = run-IsFit inner es (handle e v) w (handle-IsFit inner e v k h)

-- However the viewer is dragged, in a window of a given height, it stays at least `min_h` high, and at most nine
-- tenths of the window or as high as it was at first.
run-height :
    (inner : ℕ) (es : List Event)
    → All (IsWindow inner) es
    → (min_h ≤ (run es open_viewer).height)
      × ((run es open_viewer).height ≤ max default_h (9 * inner))
run-height inner es w = run-IsFit inner es open_viewer w (omega arith, omega arith)
