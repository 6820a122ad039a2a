-- ===== src/Tree.antt =====
-- lib/common/map.c, first part: the red-black search tree behind each key of a map.
-- A pointer to a slot of the tree is a `Path`: the nodes above the slot, the nearest first.
pub mod Search
pub mod Order
pub mod Spec
pub mod Walk
pub mod Insert
pub mod Refine
pub mod Sorted
pub mod Members
pub mod Delete
pub mod Balance
pub mod Tests
use sipecho.Common.{Bool, true, false, List, [], ◌∷◌}

-- `struct node_t`: red, left, key, right. `nil` is the null pointer.
pub data Tree (A : Type 0) : Type 0 where
  nil : Tree A
  node : Bool → Tree A → A → Tree A → Tree A

-- A node above a slot, without the subtree that the slot holds.
pub data Frame (A : Type 0) : Type 0 where
  in_left : Bool → A → Tree A → Frame A
  in_right : Bool → Tree A → A → Frame A

module _ {A : Type 0} where
  abbrev pub is_red : Tree A → Bool
  is_red nil = false
  is_red (node red l x r) = red

  -- `if (p) p->red = 0`
  abbrev pub blacken : Tree A → Tree A
  blacken nil = nil
  blacken (node red l x r) = node false l x r

  abbrev pub frame_is_red : Frame A → Bool
  frame_is_red (in_left red x r) = red
  frame_is_red (in_right red l x) = red

  abbrev pub fill : Frame A → Tree A → Tree A
  fill (in_left red x r) t = node red t x r
  fill (in_right red l x) t = node red l x t

  -- The whole tree, when the slot at the end of the path holds `t`.
  abbrev pub plug : List (Frame A) → Tree A → Tree A
  plug [] t = t
  plug (f ∷ p) t = plug p (fill f t)
