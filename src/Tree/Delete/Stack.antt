-- ===== src/Tree/Delete/Stack.antt =====
-- lib/common/map.c: where `tdelete2` calls abort(), since `nodestack` is full.
use sipecho.Common.{ℕ, suc, ◌==◌, Bool, false, ◌||◌, Ordering}
use sipecho.Tree.{Tree, nil, node}

module _ {A : Type 0} where
  -- The loop `for (;;)` with `up` at this subtree: a test and a push for every node on its left edge.
  unfoldable pub leftmost_aborts : ℕ → ℕ → Tree A → Bool
  leftmost_aborts stack_size sp nil = false
  leftmost_aborts stack_size sp (node red l x r) =
      sp == stack_size || leftmost_aborts stack_size (suc sp) l

  -- The node found: only one with two subtrees needs its successor.
  unfoldable pub delete_node_aborts : ℕ → ℕ → Tree A → Tree A → Bool
  delete_node_aborts stack_size sp nil r = false
  delete_node_aborts stack_size sp (node red l x r) nil = false
  delete_node_aborts stack_size sp (node red ll lx lr) (node r_red rl rx rr) =
      leftmost_aborts stack_size sp (node r_red rl rx rr)

  -- The search: a test and a push for every node that is not the one sought, also where the way
  -- down ends below it.
  unfoldable pub delete_from_aborts : ℕ → (A → A → Ordering) → A → ℕ → Tree A → Bool
  delete_from_aborts stack_size cmp k sp nil = false
  delete_from_aborts stack_size cmp k sp (node red l x r) = elim (cmp k x) [
    | Ordering.eq ↦ delete_node_aborts stack_size sp l r
    | Ordering.lt ↦ sp == stack_size || delete_from_aborts stack_size cmp k (suc sp) l
    | Ordering.gt ↦ sp == stack_size || delete_from_aborts stack_size cmp k (suc sp) r
  ]

  -- `tdelete2` with its stack of 100 nodes.
  unfoldable pub tdelete2_aborts : (A → A → Ordering) → A → Tree A → Bool
  unfolding delete_from_aborts leftmost_aborts delete_node_aborts
  tdelete2_aborts cmp k t = delete_from_aborts 100 cmp k 0 t
