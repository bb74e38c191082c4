-- ===== src/RunPanel/Log.antt =====
-- frontend/src/components/LogViewer.tsx: the search and the height of the log viewer. Heights are in
-- tenths of a pixel, so that nine tenths of a window's height are a whole number. `toLowerCase` is a
-- parameter. The page's scrolling is an event that gives the distance from the end.
pub mod Search
use clerq.Prelude.{
  ℕ, ◌+◌, ◌-◌, ◌*◌, includes, ltb, min, max, Text, text_eq, is_empty, Bool, true, false, not, ◌&&◌,
  ◌||◌, List, [], ◌∷◌, keep, take, length, if◌then◌else◌,
}

pub record Viewer : Type 0 where
  pub height : ℕ
  pub maximized : Bool
  pub query : Text
  pub show_search : Bool
  pub auto_scroll : Bool
  pub drag_start_y : ℕ
  pub drag_start_h : ℕ
  -- the listeners of a drag are set
  pub dragging : Bool
  pub closed : Bool

abbrev pub min_h : ℕ
min_h = 1800

abbrev pub default_h : ℕ
default_h = 4200

abbrev pub open_viewer : Viewer
open_viewer = record {
  height = default_h;
  maximized = false;
  query = [];
  show_search = false;
  auto_scroll = true;
  drag_start_y = 0;
  drag_start_h = 0;
  dragging = false;
  closed = false;
}

pub data Event : Type 0 where
  escape find_key press_search clear_search drag_up toggle_max close jump : Event
  type_query : Text → Event
  drag_start : ℕ → Event
  -- the pointer's place and the window's height
  drag_move : ℕ → ℕ → Event
  scrolled : ℕ → Event

-- `filtered`
unfoldable pub filtered : (Text → Text) → List Text → Viewer → List Text
filtered lower logs v =
    if is_empty v.query then logs else keep (λ l. includes (lower v.query) (lower l)) logs

-- `onDragMove`. Where the pointer is so far below that the height would be negative, ℕ stops at 0,
-- and `min_h` is the greater of the two all the same.
unfoldable pub on_drag_move : ℕ → ℕ → Viewer → Viewer
on_drag_move y inner v = record v {
  height = max min_h (min (9 * inner) (v.drag_start_h + 10 * v.drag_start_y - 10 * y));
  maximized = false;
}

-- `onKey`, for Escape
unfoldable pub on_escape : Viewer → Viewer
on_escape v =
    if v.show_search
    then record v { show_search = false; query = [] }
    else record v { closed = true }

unfoldable pub handle : Event → Viewer → Viewer
unfolding on_escape on_drag_move
handle escape v = on_escape v
handle find_key v = record v { show_search = true }
handle press_search v = record v { show_search = not v.show_search }
handle clear_search v = record v { query = []; show_search = false }
handle (type_query q) v = if v.show_search then record v { query = q } else v
handle (drag_start y) v = record v { drag_start_y = y; drag_start_h = v.height; dragging = true }
handle (drag_move y inner) v = if v.dragging then on_drag_move y inner v else v
handle drag_up v = record v { dragging = false }
handle toggle_max v = record v { maximized = not v.maximized }
handle (scrolled rest) v = record v { auto_scroll = ltb rest 40 }
handle jump v = record v { auto_scroll = true }
handle close v = record v { closed = true }

unfoldable pub run : List Event → Viewer → Viewer
unfolding handle
run [] v = v
run (e ∷ es) v = run es (handle e v)
