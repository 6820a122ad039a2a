-- ===== src/Tree/Search.antt =====
-- lib/common/map.c: `maybe_split_for_insert`, `tsearch2` and `tfind2`.
use sipecho.Common.{Bool, true, false, not, List, [], ◌∷◌, Option, none, some, Ordering, ◌&&◌}
use sipecho.Tree.{Tree, nil, node, Frame, in_left, in_right, is_red, frame_is_red, plug, blacken}

-- What `maybe_split_for_insert` leaves: the slots of the split node's two subtrees.
pub record Slots (A : Type 0) : Type 0 where
  pub at_left : List (Frame A)
  pub at_right : List (Frame A)

module _ {A : Type 0} where
  abbrev pub plain : Bool → Tree A → A → Tree A → List (Frame A) → Slots A
  plain red l x r path = record {
    at_left = in_left red x r ∷ path;
    at_right = in_right red l x ∷ path;
  }

  -- The rotations: the split node is red, and so is its parent `p`; `g` is the grandparent.
  -- Where the two edges differ the split node goes to the top, with `p` and `g` below it, so its
  -- old subtrees hang below those.
  unfoldable pub rotate : Tree A → A → Tree A → Frame A → Frame A → List (Frame A) → Slots A
  rotate l x r (in_left _ px pr) (in_right _ gl gx) path = record {
    at_left = in_right true gl gx ∷ in_left false x (node true r px pr) ∷ path;
    at_right = in_left true px pr ∷ in_right false (node true gl gx l) x ∷ path;
  }
  rotate l x r (in_right _ pl px) (in_left _ gx gr) path = record {
    at_left = in_right true pl px ∷ in_left false x (node true r gx gr) ∷ path;
    at_right = in_left true gx gr ∷ in_right false (node true pl px l) x ∷ path;
  }
  rotate l x r (in_left _ px pr) (in_left _ gx gr) path =
      plain true l x r (in_left false px (node true pr gx gr) ∷ path)
  rotate l x r (in_right _ pl px) (in_right _ gl gx) path =
      plain true l x r (in_right false (node true gl gx pl) px ∷ path)

  -- The split proper. A red parent is never the root of the tree, which `tsearch2` makes black.
  unfoldable pub split : Tree A → A → Tree A → List (Frame A) → Slots A
  unfolding rotate
  split l x r [] = plain true l x r []
  split l x r (p ∷ []) = plain true l x r (p ∷ [])
  split l x r (p ∷ g ∷ path) = elim (frame_is_red p) [
    | true ↦ rotate l x r p g path
    | false ↦ plain true l x r (p ∷ g ∷ path)
  ]

  abbrev pub needs_split : Tree A → Tree A → Bool
  needs_split l r = is_red l && is_red r

  -- `maybe_split_for_insert` with mode 0 at the node `node red l x r`.
  unfoldable pub maybe_split : Bool → Tree A → A → Tree A → List (Frame A) → Slots A
  unfolding split
  maybe_split red l x r path = elim (needs_split l r) [
    | true ↦ split (blacken l) x (blacken r) path
    | false ↦ plain red l x r path
  ]

  -- The end of `tsearch2`: a red node in the empty slot, and `maybe_split_for_insert` with mode 1,
  -- which is not called where the tree was empty.
  unfoldable pub link : A → List (Frame A) → Tree A
  unfolding split
  link k [] = node true nil k nil
  link k (p ∷ path) = plug (split nil k nil (p ∷ path)).at_left nil

  -- The loop of `tsearch2`. `black` says that the step above has made this node black.
  unfoldable pub descend : (A → A → Ordering) → A → List (Frame A) → Bool → Tree A → A × Tree A
  unfolding maybe_split link
  descend cmp k path black nil = (k, link k path)
  descend cmp k path black (node red l x r) =
      let slots = maybe_split (red && not black) l x r path in
      elim (cmp k x) [
        | Ordering.eq ↦ (x, plug path (node (red && not black) l x r))
        | Ordering.lt ↦ descend cmp k slots.at_left (needs_split l r) l
        | Ordering.gt ↦ descend cmp k slots.at_right (needs_split l r) r
      ]

  -- `tsearch2`: the key that the tree holds now, `k` itself if it was inserted.
  unfoldable pub tsearch2 : (A → A → Ordering) → A → Tree A → A × Tree A
  unfolding descend
  tsearch2 cmp k t = descend cmp k [] true t

  -- `tfind2`
  unfoldable pub tfind2 : (A → A → Ordering) → A → Tree A → Option A
  tfind2 cmp k nil = none
  tfind2 cmp k (node red l x r) = elim (cmp k x) [
    | Ordering.eq ↦ some x
    | Ordering.lt ↦ tfind2 cmp k l
    | Ordering.gt ↦ tfind2 cmp k r
  ]
