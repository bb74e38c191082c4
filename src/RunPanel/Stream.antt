-- ===== src/RunPanel/Stream.antt =====
-- Whose run the panel shows, and how fresh it is.
use clerq.Prelude.{
  ℕ, ◌==◌, ◌≡◌, refl, ap, false, ◌&&◌, Option, none, some, List, [], ◌∷◌, All, if_cases, arith,
  map_get, or_else,
}
use clerq.Types.{Run, RunStep, SseRunUpdate}
use clerq.RunPanel.{
  of_run, Panel, Event, select, update, stream_done, stream_error, fetched, toggle_expanded,
  view_images, close_images, close_log, view_log, shown, open_panel, handle, run, log_lines,
}

-- What the server sends for a run carries the run's id.
abbrev IsOwnData : ℕ → Option Run → Type 0
IsOwnData id none = Unit
IsOwnData id (some r) = r.id ≡ id

abbrev pub IsOwnUpdate : ℕ → Option SseRunUpdate → Type 0
IsOwnUpdate id none = Unit
IsOwnUpdate id (some u) = u.run_id ≡ id

abbrev pub IsOwn : Event → Type 0
IsOwn (select id cached) = IsOwnData id cached
IsOwn (update id u) = u.run_id ≡ id
IsOwn (fetched id r) = r.id ≡ id
IsOwn _ = Unit

abbrev IsPanel : Panel → Type 0
IsPanel p = IsOwnUpdate p.run_id p.sse_state × IsOwnData p.run_id p.run_data

handle-IsPanel : (e : Event) (p : Panel) → IsOwn e → IsPanel p → IsPanel (handle e p)
unfolding handle
handle-IsPanel (select id cached) p own h =
    if_cases IsPanel (id == p.run_id) _ _ (λ _. h) (λ _. (tt, own))
handle-IsPanel (update id u) p own h =
    if_cases IsPanel (id == p.run_id && p.stream) _ _ (λ heard. (ground arith, h.1)) (λ _. h)
handle-IsPanel (stream_done id) p own h =
    if_cases IsPanel (id == p.run_id && p.stream) _ _ (λ _. h) (λ _. h)
handle-IsPanel (stream_error id) p own h =
    if_cases IsPanel (id == p.run_id && p.stream) _ _ (λ _. h) (λ _. h)
handle-IsPanel (fetched id r) p own h =
    if_cases IsPanel (id == p.run_id) _ _ (λ same. (h.0, ground arith)) (λ _. h)
handle-IsPanel toggle_expanded p own h = h
handle-IsPanel view_images p own h = h
handle-IsPanel close_images p own h = h
handle-IsPanel (view_log step) p own h = h
handle-IsPanel close_log p own h = h

run-IsPanel : (es : List Event) (p : Panel) → All IsOwn es → IsPanel p → IsPanel (run es p)
unfolding run
run-IsPanel [] p own h = h
run-IsPanel (e ∷ es) p (own, rest) h = run-IsPanel es (handle e p) rest (handle-IsPanel e p own h)

IsOwnUpdate-or_else :
    (id : ℕ) (u : Option SseRunUpdate) (r : Option Run)
    → IsOwnUpdate id u
    → IsOwnData id r
    → IsOwnUpdate id (or_else u (map_get r of_run))
IsOwnUpdate-or_else id (some u) r hu hr = hu
IsOwnUpdate-or_else id none none hu hr = tt
IsOwnUpdate-or_else id none (some r) hu hr = hr

-- Whatever the order in which messages and answers come in, and whatever runs become the active one in
-- between, the panel shows the state of its own run or none, where the server sends each run under its id.
pub shown-run :
    (es : List Event) (id : ℕ)
    → All IsOwn es
    → IsOwnUpdate (run es (open_panel id none)).run_id (shown (run es (open_panel id none)))
unfolding shown
shown-run es id own =
    let p = run es (open_panel id none) in
    let (hu, hr) = run-IsPanel es (open_panel id none) own (tt, tt) in
    IsOwnUpdate-or_else p.run_id p.sse_state p.run_data hu hr

abbrev pub IsStay : Event → Type 0
IsStay (select id cached) = ⊥
IsStay (view_log step) = ⊥
IsStay close_log = ⊥
IsStay _ = Unit

abbrev IsFrozen : SseRunUpdate → Option RunStep → Panel → Type 0
IsFrozen u step p = (p.stream ≡ false) × (p.sse_state ≡ some u) × (p.log_step ≡ step)

handle-IsFrozen :
    (u : SseRunUpdate) (l : Option RunStep) (e : Event) (p : Panel)
    → IsStay e
    → IsFrozen u l p
    → IsFrozen u l (handle e p)
unfolding handle
handle-IsFrozen u l (select id cached) p stay h = absurd stay
handle-IsFrozen u l (update id v) p stay h =
    if_cases (IsFrozen u l) (id == p.run_id && p.stream) _ _ (λ heard. absurd (ground (arith, h.0)))
      (λ _. h)
handle-IsFrozen u l (stream_done id) p stay h =
    if_cases (IsFrozen u l) (id == p.run_id && p.stream) _ _ (λ _. (refl, h.1, h.2)) (λ _. h)
handle-IsFrozen u l (stream_error id) p stay h =
    if_cases (IsFrozen u l) (id == p.run_id && p.stream) _ _ (λ _. (refl, h.1, h.2)) (λ _. h)
handle-IsFrozen u l (fetched id r) p stay h =
    if_cases (IsFrozen u l) (id == p.run_id) _ _ (λ _. h) (λ _. h)
handle-IsFrozen u l toggle_expanded p stay h = h
handle-IsFrozen u l view_images p stay h = h
handle-IsFrozen u l close_images p stay h = h
handle-IsFrozen u l (view_log step) p stay h = absurd stay
handle-IsFrozen u l close_log p stay h = absurd stay

run-IsFrozen :
    (u : SseRunUpdate) (l : Option RunStep) (es : List Event) (p : Panel)
    → All IsStay es
    → IsFrozen u l p
    → IsFrozen u l (run es p)
unfolding run
run-IsFrozen u l [] p stay h = h
run-IsFrozen u l (e ∷ es) p (stay, rest) h =
    run-IsFrozen u l es (handle e p) rest (handle-IsFrozen u l e p stay h)

-- Once the stream of a run has ended, also by an error, the panel keeps showing the last message,
-- whatever is fetched later of the run, until another run is selected; and a log that is open keeps its
-- lines until it is closed.
pub run-frozen :
    (es : List Event) (p : Panel) (u : SseRunUpdate)
    → All IsStay es
    → p.stream ≡ false
    → p.sse_state ≡ some u
    → (shown (run es p) ≡ some u) × (log_lines (run es p) ≡ log_lines p)
unfolding shown log_lines
run-frozen es p u stay ended last =
    let (_, kept, log_kept) = run-IsFrozen u p.log_step es p stay (ended, last, refl) in
    (
      ap (λ o. or_else o (map_get (run es p).run_data of_run)) kept,
      ap (λ o. map_get o (λ (s : RunStep). s.logs)) log_kept,
    )
