-- ===== src/Tree/Balance.antt =====
-- Red-black trees: the balance that the comments of lib/common/map.c speak of, for a whole tree and
-- for the nodes above a slot.
pub mod Insert
pub mod Delete
pub mod Height
use sipecho.Common.{ℕ, zero, suc, ◌+◌, Bool, true, false, List, [], ◌∷◌, ◌≡◌, refl, arith}
use sipecho.Tree.{Tree, nil, node, Frame, in_left, in_right, is_red, frame_is_red, plug, blacken}

module _ {A : Type 0} where
  -- No two red edges in a row, and `n` black edges on every way down. The first argument tells
  -- whether the node above is red.
  abbrev pub Balanced : Bool → ℕ → Tree A → Type 0
  Balanced above n nil = n ≡ 0
  Balanced above n (node true l x r) = (above ≡ false) × Balanced true n l × Balanced true n r
  Balanced above zero (node false l x r) = ⊥
  Balanced above (suc n) (node false l x r) = Balanced false n l × Balanced false n r

  abbrev pub above_red : List (Frame A) → Bool
  above_red [] = false
  above_red (f ∷ path) = frame_is_red f

  -- A path whose slot takes a balanced tree with `n` black edges.
  abbrev pub Open : ℕ → List (Frame A) → Type 0
  Open n [] = Unit
  Open n (in_left true x r ∷ path) = Balanced true n r × (above_red path ≡ false) × Open n path
  Open n (in_left false x r ∷ path) = Balanced false n r × Open (suc n) path
  Open n (in_right true l x ∷ path) = Balanced true n l × (above_red path ≡ false) × Open n path
  Open n (in_right false l x ∷ path) = Balanced false n l × Open (suc n) path

  -- The whole tree is balanced.
  abbrev pub IsBalanced : Tree A → Type 0
  IsBalanced t = (n : ℕ) × Balanced false n t

  pub weaken : (above : Bool) (n : ℕ) (t : Tree A) → Balanced true n t → Balanced above n t
  weaken above n nil h = h
  weaken above n (node true l x r) h = absurd (ground (arith, h.0))
  weaken above zero (node false l x r) h = h
  weaken above (suc n) (node false l x r) h = h

  -- A black node may stand below a red one.
  pub below_red :
      (above : Bool) (n : ℕ) (t : Tree A)
      → is_red t ≡ false
      → Balanced above n t
      → Balanced true n t
  below_red above n nil e h = h
  below_red above n (node true l x r) e h = absurd (ground (arith, e))
  below_red above zero (node false l x r) e h = h
  below_red above (suc n) (node false l x r) e h = h

  pub below_black : (above : Bool) (n : ℕ) (t : Tree A) → Balanced above n t → Balanced false n t
  below_black above n nil h = h
  below_black above n (node true l x r) h = (refl, h.1, h.2)
  below_black above zero (node false l x r) h = h
  below_black above (suc n) (node false l x r) h = h

  -- A tree that fits its slot leaves a balanced tree.
  pub plug-IsBalanced :
      (path : List (Frame A)) (n : ℕ) (t : Tree A)
      → Open n path
      → Balanced (above_red path) n t
      → IsBalanced (plug path t)
  plug-IsBalanced [] n t o h = (n, h)
  plug-IsBalanced (in_left true x r ∷ path) n t o h =
      plug-IsBalanced path n (node true t x r) o.2 (o.1, h, o.0)
  plug-IsBalanced (in_left false x r ∷ path) n t o h =
      plug-IsBalanced path (suc n) (node false t x r) o.1 (h, o.0)
  plug-IsBalanced (in_right true l x ∷ path) n t o h =
      plug-IsBalanced path n (node true l x t) o.2 (o.1, o.0, h)
  plug-IsBalanced (in_right false l x ∷ path) n t o h =
      plug-IsBalanced path (suc n) (node false l x t) o.1 (o.0, h)

  -- A red node above leaves the slot for black ones only; what may stand below red fits any slot.
  pub plug_below_red :
      (path : List (Frame A)) (n : ℕ) (t : Tree A)
      → Open n path
      → Balanced true n t
      → IsBalanced (plug path t)
  plug_below_red path n t o h = plug-IsBalanced path n t o (weaken (above_red path) n t h)
