-- ===== src/Dashboard/Stream.antt =====
-- What the widget shows of a run, and when its results open.
use clerq.Prelude.{
  Text, ℕ, ◌≡◌, refl, sym, subst, true, not, ◌&&◌, Option, none, some, List, [], ◌∷◌, All,
  All-append, All-mem, Memᴰ, ◌⊎◌, inl, inr, if_cases, arith,
}
use clerq.Types.{RunStep, RunStatus, SseRunUpdate}
use clerq.Dashboard.{
  Widget, Effect, open_sidebar, Event, select_file, press_run, clear, uploaded, created, failed,
  update, stream_end, empty_widget, is_terminal, show_results_done, on_update, on_created, Call,
  uploading, over, triggering, call_at, start_run, is_selected, is_idle, take_uploaded,
  take_created, take_failed, is_heard, handle, run,
}

-- The open stream is that of the run that the widget names.
abbrev IsNamed : Option ℕ → Option ℕ → Type 0
IsNamed none run_id = Unit
IsNamed (some id) run_id = run_id ≡ some id

-- What the widget shows of the run that it names: nothing yet, or what one of the messages of that
-- run's stream said, where `all` are the events so far and to come.
abbrev IsTold : List Event → Option ℕ → List RunStep → Option RunStatus → Type 0
IsTold all none steps status = (steps ≡ []) × (status ≡ none)
IsTold all (some id) steps status =
    ((steps ≡ []) × (status ≡ some RunStatus.pending))
    ⊎ ((u : SseRunUpdate) × Memᴰ (update id u) all × (steps ≡ u.steps) × (status ≡ some u.status))

abbrev pub IsWidget : List Event → Widget → Type 0
IsWidget all w = IsNamed w.stream w.run_id × IsTold all w.run_id w.steps w.run_status

-- The results open of themselves only for a run that is over and has results to show.
abbrev pub IsDueEffect : Effect → Type 0
IsDueEffect (open_sidebar status steps) =
    (is_terminal status ≡ true) × (show_results_done steps ≡ true)
IsDueEffect _ = Unit

abbrev IsStep : List Event → Widget × List Effect → Type 0
IsStep all (w, out) = IsWidget all w × All IsDueEffect out

heard_run :
    (id : ℕ) (stream run_id : Option ℕ)
    → is_heard id stream ≡ true
    → IsNamed stream run_id
    → run_id ≡ some id
heard_run id none run_id k h = cc
heard_run id (some s) run_id k h = ground arith

on_update-IsStep :
    (all : List Event) (id : ℕ) (u : SseRunUpdate) (w : Widget)
    → Memᴰ (update id u) all
    → is_heard id w.stream ≡ true
    → IsWidget all w
    → IsStep all (on_update u w)
unfolding on_update
on_update-IsStep all id u w m k (named, told) = (
  (
    named,
    subst (λ r. IsTold all r u.steps (some u.status)) (sym (heard_run id w.stream w.run_id k named))
        (inr (u, m, refl, refl)),
  ),
  if_cases (All IsDueEffect) (show_results_done u.steps && is_terminal u.status) _ _
      (λ due. ((ground arith, ground arith), tt)) (λ _. tt),
)

module _ (all : List Event) where
  take_uploaded-IsStep :
      (c : Option Call) (k doc : ℕ) (w : Widget)
      → IsWidget all w
      → IsStep all (take_uploaded c k doc w)
  take_uploaded-IsStep none k doc w h = (h, tt)
  take_uploaded-IsStep (some uploading) k doc w h = (h, (tt, tt))
  take_uploaded-IsStep (some over) k doc w h = (h, tt)
  take_uploaded-IsStep (some (triggering d)) k doc w h = (h, tt)

  take_created-IsWidget :
      (c : Option Call) (k id : ℕ) (w : Widget)
      → IsWidget all w
      → IsWidget all (take_created c k id w)
  unfolding on_created
  take_created-IsWidget none k id w h = h
  take_created-IsWidget (some uploading) k id w h = h
  take_created-IsWidget (some over) k id w h = h
  take_created-IsWidget (some (triggering doc)) k id w h = (refl, inl (refl, refl))

  take_failed-IsWidget :
      (c : Option Call) (k : ℕ) (message : Text) (w : Widget)
      → IsWidget all w
      → IsWidget all (take_failed c k message w)
  take_failed-IsWidget none k message w h = h
  take_failed-IsWidget (some uploading) k message w h = h
  take_failed-IsWidget (some over) k message w h = h
  take_failed-IsWidget (some (triggering doc)) k message w h = h

  handle-IsStep : (e : Event) (w : Widget) → Memᴰ e all → IsWidget all w → IsStep all (handle e w)
  unfolding handle
  handle-IsStep (select_file f) w m h =
      if_cases (IsStep all) (is_idle w.phase) _ _ (λ _. (h, tt)) (λ _. (h, tt))
  handle-IsStep press_run w m h =
      if_cases (IsStep all) (is_selected w.phase && not w.is_uploading) _ _ (λ _. started w.file)
        (λ _. (h, tt))
    where
      started : (f : Option Text) → IsStep all (start_run f w)
      started none = (h, tt)
      started (some f) = (h, (tt, tt))
  handle-IsStep clear w m h =
      if_cases (IsStep all) (is_idle w.phase) _ _ (λ _. (h, tt)) (λ _. ((tt, (refl, refl)), tt))
  handle-IsStep (uploaded k doc) w m h = take_uploaded-IsStep (call_at k w) k doc w h
  handle-IsStep (created k id) w m h = (take_created-IsWidget (call_at k w) k id w h, tt)
  handle-IsStep (failed k message) w m h = (take_failed-IsWidget (call_at k w) k message w h, tt)
  handle-IsStep (update id u) w m h =
      if_cases (IsStep all) (is_heard id w.stream) _ _
        (λ heard. on_update-IsStep all id u w m heard h) (λ _. (h, tt))
  handle-IsStep (stream_end id) w m h =
      if_cases (IsStep all) (is_heard id w.stream) _ _ (λ _. ((tt, h.1), tt)) (λ _. (h, tt))

  run-IsStep :
      (es : List Event) (w : Widget)
      → All (λ e. Memᴰ e all) es
      → IsWidget all w
      → IsStep all (run es w)
  unfolding run
  run-IsStep [] w m h = (h, tt)
  run-IsStep (e ∷ es) w (m, ms) h =
      let (h', now) = handle-IsStep e w m h in
      let (h'', later) = run-IsStep es (handle e w).0 ms h' in
      (h'', All-append IsDueEffect (handle e w).1 _ now later)

-- Whatever is done with the widget, and however the answers and messages of several runs come in:
-- the open stream is that of the run that the widget names; the steps and the status shown are
-- those of a message of that very run, or none and pending before its first, or none at all where
-- no run is named; and the results open of themselves only with the steps of a run that is over,
-- one of which shows results and has succeeded.
pub run-IsWidget :
    (es : List Event)
    → IsWidget es (run es (empty_widget [])).0 × All IsDueEffect (run es (empty_widget [])).1
run-IsWidget es = run-IsStep es es (empty_widget []) (All-mem es) (tt, (refl, refl))
