-- ===== src/Tree/Balance/Delete.antt =====
-- `tdelete2` keeps the tree balanced.
pub mod Brother
pub mod Rebalance
use sipecho.Common.{
  ℕ, zero, suc, ◌+◌, Bool, true, false, not, ◌&&◌, List, [], ◌∷◌, ◌++◌, ◌≡◌, refl, sym, subst,
  arith, Bool-cases, inl, inr, Ordering,
}
use sipecho.Tree.{Tree, nil, node, Frame, in_left, in_right, is_red, frame_is_red, plug, blacken}
use sipecho.Tree.Delete.{
  Repair, short, done, Leftmost, repair_left, repair_right, settle, rebalance, unchain, leftmost,
  delete_node, delete_from, tdelete2,
}
use sipecho.Tree.Balance.{
  Balanced, above_red, Open, IsBalanced, weaken, below_red, below_black, plug-IsBalanced,
  plug_below_red,
}
use sipecho.Tree.Balance.Delete.Brother.{
  Short, Repaired, done-Repaired, short_left-Repaired, short_right-Repaired, repair_left-Repaired,
  repair_right-Repaired,
}
use sipecho.Tree.Balance.Delete.Rebalance.{
  red-Short, black-Short, Balanced-Short, blacken_root, plug_black, settle-IsBalanced, OpenBelow,
  resume-IsBalanced, rebalance-IsBalanced,
}

module _ {A : Type 0} where
  -- The slot of an unchained node of this colour, and the subtree that it leaves.
  abbrev Unchained : Bool → ℕ → Tree A → Type 0
  Unchained true n r = Balanced true n r
  Unchained false zero r = ⊥
  Unchained false (suc n) r = Balanced false n r

  unchain-IsBalanced :
      (red : Bool) (n : ℕ) (r : Tree A) (path : List (Frame A))
      → Open n path
      → Unchained red n r
      → IsBalanced (unchain red r path)
  unfolding unchain
  unchain-IsBalanced true n r path o h = plug_below_red path n r o h
  unchain-IsBalanced false zero r path o h = absurd h
  unchain-IsBalanced false (suc n) r path o h =
      rebalance-IsBalanced n r path (Balanced-Short n r h) o

  left_of :
      (above red : Bool) (n : ℕ) (l : Tree A) (x : A) (r : Tree A)
      → Balanced above n (node red l x r)
      → Unchained red n l
  left_of above true n l x r h = h.1
  left_of above false zero l x r h = h
  left_of above false (suc n) l x r h = h.0

  right_of :
      (above red : Bool) (n : ℕ) (l : Tree A) (x : A) (r : Tree A)
      → Balanced above n (node red l x r)
      → Unchained red n r
  right_of above true n l x r h = h.2
  right_of above false zero l x r h = h
  right_of above false (suc n) l x r h = h.1

  -- The slots below a balanced node, with its subtrees.
  abbrev Opened : List (Frame A) → Tree A → Type 0
  Opened path t = (n : ℕ) × (Open n path × Balanced (above_red path) n t)

  go_left :
      (red : Bool) (n : ℕ) (l : Tree A) (x : A) (r : Tree A) (path : List (Frame A))
      → Open n path
      → Balanced (above_red path) n (node red l x r)
      → Opened (in_left red x r ∷ path) l
  go_left true n l x r path o h = (n, ((h.2, h.0, o), h.1))
  go_left false zero l x r path o h = absurd h
  go_left false (suc n) l x r path o h = (n, ((h.1, o), h.0))

  go_right :
      (red : Bool) (n : ℕ) (l : Tree A) (x : A) (r : Tree A) (path : List (Frame A))
      → Open n path
      → Balanced (above_red path) n (node red l x r)
      → Opened (in_right red l x ∷ path) r
  go_right true n l x r path o h = (n, ((h.1, h.0, o), h.2))
  go_right false zero l x r path o h = absurd h
  go_right false (suc n) l x r path o h = (n, ((h.0, o), h.1))

  abbrev Taken : Leftmost A → List (Frame A) → Type 0
  Taken u base = (n : ℕ) × (Open n (u.frames ++ base) × Unchained u.red n u.right)

  leftmost-Taken :
      (red : Bool) (l : Tree A) (x : A) (r : Tree A) (frames base : List (Frame A))
      → Opened (frames ++ base) (node red l x r)
      → Taken (leftmost red l x r frames) base
  unfolding leftmost
  leftmost-Taken red nil x r frames base h = (h.0, (h.1.0, right_of _ red h.0 nil x r h.1.1))
  leftmost-Taken red (node red' l' x' r') x r frames base h =
      leftmost-Taken red' l' x' r' (in_left red x r ∷ frames) base
        (go_left red h.0 (node red' l' x' r') x r (frames ++ base) h.1.0 h.1.1)

  -- The key of a node does not matter.
  rekey :
      (red : Bool) (n : ℕ) (l : Tree A) (x y : A) (r : Tree A) (above : Bool)
      → Balanced above n (node red l x r)
      → Balanced above n (node red l y r)
  rekey true n l x y r above h = h
  rekey false zero l x y r above h = h
  rekey false (suc n) l x y r above h = h

  delete_node-IsBalanced :
      (red : Bool) (n : ℕ) (l : Tree A) (x : A) (r : Tree A) (path : List (Frame A))
      → Open n path
      → Balanced (above_red path) n (node red l x r)
      → IsBalanced (delete_node red l r path)
  unfolding delete_node
  delete_node-IsBalanced red n nil x r path o h =
      unchain-IsBalanced red n r path o (right_of _ red n nil x r h)
  delete_node-IsBalanced red n (node lc ll lx lr) x nil path o h =
      unchain-IsBalanced red n (node lc ll lx lr) path o
        (left_of _ red n (node lc ll lx lr) x nil h)
  delete_node-IsBalanced red n (node lc ll lx lr) x (node rc rl rx rr) path o h =
      let u = leftmost rc rl rx rr [] in
      let base = in_right red (node lc ll lx lr) u.key ∷ path in
      let taken = leftmost-Taken rc rl rx rr [] base (
        go_right red n (node lc ll lx lr) u.key (node rc rl rx rr) path o
          (rekey red n (node lc ll lx lr) x u.key (node rc rl rx rr) (above_red path) h)) in
      unchain-IsBalanced u.red taken.0 u.right (u.frames ++ base) taken.1.0 taken.1.1

  by_order :
      (o : Ordering) (a b c : Tree A)
      → IsBalanced a
      → IsBalanced b
      → IsBalanced c
      → IsBalanced (elim o as (λ o. Tree A) [ Ordering.eq ↦ a | Ordering.lt ↦ b | Ordering.gt ↦ c ])
  by_order Ordering.eq a b c p q r = p
  by_order Ordering.lt a b c p q r = q
  by_order Ordering.gt a b c p q r = r

  delete_from-IsBalanced :
      (cmp : A → A → Ordering) (k : A) (n : ℕ) (path : List (Frame A)) (t : Tree A)
      → Open n path
      → Balanced (above_red path) n t
      → IsBalanced (delete_from cmp k path t)
  unfolding delete_from
  delete_from-IsBalanced cmp k n path nil o h = plug-IsBalanced path n nil o h
  delete_from-IsBalanced cmp k n path (node red l x r) o h =
      let lower = go_left red n l x r path o h in
      let upper = go_right red n l x r path o h in
      by_order (cmp k x) _ _ _ (delete_node-IsBalanced red n l x r path o h)
        (delete_from-IsBalanced cmp k lower.0 (in_left red x r ∷ path) l lower.1.0 lower.1.1)
        (delete_from-IsBalanced cmp k upper.0 (in_right red l x ∷ path) r upper.1.0 upper.1.1)

  -- Deletion from a balanced tree, with any comparison, leaves a balanced tree.
  pub tdelete2-IsBalanced :
      (cmp : A → A → Ordering) (k : A) (t : Tree A) → IsBalanced t → IsBalanced (tdelete2 cmp k t)
  unfolding tdelete2
  tdelete2-IsBalanced cmp k t h = delete_from-IsBalanced cmp k h.0 [] t tt h.1
