-- ===== src/Drawer/Viewer.antt =====
-- The image viewer stays within the images.
use clerq.Prelude.{ℕ, ◌<◌, List, [], ◌∷◌, arith}
use clerq.Drawer.{Move, right, left, turn, turns}

turn_lt : (count : ℕ) (m : Move) (i : ℕ) → i < count → turn count m i < count
unfolding turn
turn_lt count right i h = omega arith
turn_lt count left i h = omega arith

-- However the user turns the pages, the viewer shows one of the images.
turns_lt : (count : ℕ) (moves : List Move) (i : ℕ) → i < count → turns count moves i < count
unfolding turns
turns_lt count [] i h = h
turns_lt count (m ∷ ms) i h = turns_lt count ms (turn count m i) (turn_lt count m i h)
