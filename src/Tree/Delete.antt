-- ===== src/Tree/Delete.antt =====
-- lib/common/map.c: `tdelete2`. The array `nodestack` is the path: its top is the nearest frame.
pub mod Keys
pub mod Stack
use sipecho.Common.{Bool, true, false, not, List, [], ◌∷◌, ◌++◌, Ordering, ◌&&◌}
use sipecho.Tree.{Tree, nil, node, Frame, in_left, in_right, is_red, plug, blacken}

-- What one round of the rebalancing leaves below `p`: a subtree that still is one black edge short,
-- or a subtree with which the work is done.
pub data Repair (A : Type 0) : Type 0 where
  short : Tree A → Repair A
  done : Tree A → Repair A

-- The leftmost node of a subtree, and the frames from it up to the top of the subtree.
pub record Leftmost (A : Type 0) : Type 0 where
  pub red : Bool
  pub key : A
  pub right : Tree A
  pub frames : List (Frame A)

module _ {A : Type 0} where
  -- Q is the black brother of R, on the right. The null pointer cannot stand there, since R's side
  -- has lost a black edge and Q's has not.
  unfoldable pub repair_left : Tree A → Bool → A → Tree A → Repair A
  repair_left r p_red p_key nil = done (node p_red r p_key nil)
  repair_left r p_red p_key (node q_red ql q_key qr) = elim (is_red qr) [
    | true ↦ done (node p_red (node false r p_key ql) q_key (blacken qr))
    | false ↦ elim ql [
      | nil ↦ short (node p_red r p_key (node true nil q_key qr))
      | node true a q2_key b ↦
          done (node p_red (node false r p_key a) q2_key (node q_red b q_key qr))
      | node false a q2_key b ↦
          short (node p_red r p_key (node true (node false a q2_key b) q_key qr))
    ]
  ]

  -- The same with Q on the left.
  unfoldable pub repair_right : Tree A → Bool → A → Tree A → Repair A
  repair_right r p_red p_key nil = done (node p_red nil p_key r)
  repair_right r p_red p_key (node q_red ql q_key qr) = elim (is_red ql) [
    | true ↦ done (node p_red (blacken ql) q_key (node false qr p_key r))
    | false ↦ elim qr [
      | nil ↦ short (node p_red (node true ql q_key nil) p_key r)
      | node true a q2_key b ↦
          done (node p_red (node q_red ql q_key a) q2_key (node false b p_key r))
      | node false a q2_key b ↦
          short (node p_red (node true ql q_key (node false a q2_key b)) p_key r)
    ]
  ]

  -- After the rotation of a red Q the parent P is red, so the loop ends at its next test, and P is
  -- made black.
  unfoldable pub settle : List (Frame A) → Repair A → Tree A
  settle path (short t) = plug path (blacken t)
  settle path (done t) = plug path t

  -- The loop `while (sp > 0 && (r == NULL || !r->red))`, and `if (r != NULL) r->red = 0`.
  unfoldable pub rebalance : Tree A → List (Frame A) → Tree A
  unfolding repair_left repair_right settle
  rebalance r [] = blacken r
  rebalance r (in_left p_red p_key (node true ql q_key qr) ∷ path) = elim (is_red r) [
    | true ↦ plug (in_left p_red p_key (node true ql q_key qr) ∷ path) (blacken r)
    | false ↦ settle (in_left false q_key qr ∷ path) (repair_left r true p_key ql)
  ]
  rebalance r (in_right p_red (node true ql q_key qr) p_key ∷ path) = elim (is_red r) [
    | true ↦ plug (in_right p_red (node true ql q_key qr) p_key ∷ path) (blacken r)
    | false ↦ settle (in_right false ql q_key ∷ path) (repair_right r true p_key qr)
  ]
  rebalance r (in_left p_red p_key q ∷ path) = elim (is_red r) [
    | true ↦ plug (in_left p_red p_key q ∷ path) (blacken r)
    | false ↦ elim (repair_left r p_red p_key q) [
      | short t ↦ rebalance t path
      | done t ↦ plug path t
    ]
  ]
  rebalance r (in_right p_red q p_key ∷ path) = elim (is_red r) [
    | true ↦ plug (in_right p_red q p_key ∷ path) (blacken r)
    | false ↦ elim (repair_right r p_red p_key q) [
      | short t ↦ rebalance t path
      | done t ↦ plug path t
    ]
  ]

  -- The unchained node leaves its only subtree in its slot; a black one leaves it short.
  unfoldable pub unchain : Bool → Tree A → List (Frame A) → Tree A
  unfolding rebalance
  unchain true r path = plug path r
  unchain false r path = rebalance r path

  -- `for (;;)`: from the top of the right subtree down its left edge.
  unfoldable pub leftmost : Bool → Tree A → A → Tree A → List (Frame A) → Leftmost A
  leftmost red nil x r frames = record { red = red; key = x; right = r; frames = frames }
  leftmost red (node red' l x' r') x r frames = leftmost red' l x' r' (in_left red x r ∷ frames)

  -- The node found: with two subtrees its key is overwritten by its successor's, and the successor
  -- is unchained.
  unfoldable pub delete_node : Bool → Tree A → Tree A → List (Frame A) → Tree A
  unfolding unchain leftmost
  delete_node red nil r path = unchain red r path
  delete_node red (node l_red ll lx lr) nil path = unchain red (node l_red ll lx lr) path
  delete_node red (node l_red ll lx lr) (node r_red rl rx rr) path =
      let u = leftmost r_red rl rx rr [] in
      unchain u.red u.right (u.frames ++ (in_right red (node l_red ll lx lr) u.key ∷ path))

  -- The search for the node, with the stack of the nodes above.
  unfoldable pub delete_from : (A → A → Ordering) → A → List (Frame A) → Tree A → Tree A
  unfolding delete_node
  delete_from cmp k path nil = plug path nil
  delete_from cmp k path (node red l x r) = elim (cmp k x) [
    | Ordering.eq ↦ delete_node red l r path
    | Ordering.lt ↦ delete_from cmp k (in_left red x r ∷ path) l
    | Ordering.gt ↦ delete_from cmp k (in_right red l x ∷ path) r
  ]

  -- `tdelete2`: the tree that it leaves.
  unfoldable pub tdelete2 : (A → A → Ordering) → A → Tree A → Tree A
  unfolding delete_from
  tdelete2 cmp k t = delete_from cmp k [] t
