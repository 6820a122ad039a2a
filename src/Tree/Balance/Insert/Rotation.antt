-- ===== src/Tree/Balance/Insert/Rotation.antt =====
-- The slots that a split of `tsearch2` leaves.
use sipecho.Common.{
  ℕ, Bool, true, false, ◌&&◌, List, [], ◌∷◌, ◌≡◌, refl, arith, Bool-cases, inl, inr,
}
use sipecho.Tree.{Tree, nil, node, Frame, in_left, in_right, is_red, frame_is_red}
use sipecho.Tree.Search.{Slots, plain, rotate, split, link}
use sipecho.Tree.Balance.{Balanced, above_red, Open, IsBalanced, below_red, plug_below_red}

pub not_both : (a b : Bool) → (a && b) ≡ false → a ≡ true → b ≡ false
not_both a b h e = ground (arith, h, e)

pub not_both_flip : (a b : Bool) → (a && b) ≡ false → b ≡ true → a ≡ false
not_both_flip a b h e = ground (arith, h, e)

module _ {A : Type 0} where
  abbrev pub brother : Frame A → Tree A
  brother (in_left red x r) = r
  brother (in_right red l x) = l

  -- Where the node above is red, its brother is not, and it is not the root.
  abbrev pub Uncle : List (Frame A) → Type 0
  Uncle [] = Unit
  Uncle (p ∷ []) = frame_is_red p ≡ false
  Uncle (p ∷ g ∷ path) = frame_is_red p ≡ true → is_red (brother g) ≡ false

  -- The same of a node and its place.
  abbrev pub Alone : List (Frame A) → Bool → Type 0
  Alone [] red = red ≡ false
  Alone (f ∷ path) red = red ≡ true → is_red (brother f) ≡ false

  abbrev pub BothOpen : ℕ → Slots A → Type 0
  BothOpen n s = Open n s.at_left × Open n s.at_right

  -- A node that becomes red below a black one.
  pub red_slots :
      (n : ℕ) (l : Tree A) (x : A) (r : Tree A) (path : List (Frame A))
      → Balanced true n l
      → Balanced true n r
      → Open n path
      → above_red path ≡ false
      → BothOpen n (plain true l x r path)
  red_slots n l x r path hl hr o e = ((hr, e, o), (hl, e, o))

  pub rotate_slots :
      (n : ℕ) (l : Tree A) (x : A) (r : Tree A) (p g : Frame A) (path : List (Frame A))
      → Balanced true n l
      → Balanced true n r
      → Open n (p ∷ g ∷ path)
      → frame_is_red p ≡ true
      → is_red (brother g) ≡ false
      → BothOpen n (rotate l x r p g path)
  unfolding rotate
  rotate_slots n l x r (in_left true px pr) (in_left false gx gr) path hl hr o e u =
      red_slots n l x r (in_left false px (node true pr gx gr) ∷ path) hl hr
        ((refl, o.0, below_red false n gr u o.2.0), o.2.1) refl
  rotate_slots n l x r (in_left true px pr) (in_right false gl gx) path hl hr o e u =
      let hg = below_red false n gl u o.2.0 in
      ((hg, refl, ((refl, hr, o.0), o.2.1)), (o.0, refl, ((refl, hg, hl), o.2.1)))
  rotate_slots n l x r (in_right true pl px) (in_left false gx gr) path hl hr o e u =
      let hg = below_red false n gr u o.2.0 in
      ((o.0, refl, ((refl, hr, hg), o.2.1)), (hg, refl, ((refl, o.0, hl), o.2.1)))
  rotate_slots n l x r (in_right true pl px) (in_right false gl gx) path hl hr o e u =
      red_slots n l x r (in_right false (node true gl gx pl) px ∷ path) hl hr
        ((refl, below_red false n gl u o.2.0, o.0), o.2.1) refl
  rotate_slots n l x r (in_left true px pr) (in_left true gx gr) path hl hr o e u =
      absurd (ground (arith, o.1))
  rotate_slots n l x r (in_left true px pr) (in_right true gl gx) path hl hr o e u =
      absurd (ground (arith, o.1))
  rotate_slots n l x r (in_right true pl px) (in_left true gx gr) path hl hr o e u =
      absurd (ground (arith, o.1))
  rotate_slots n l x r (in_right true pl px) (in_right true gl gx) path hl hr o e u =
      absurd (ground (arith, o.1))
  rotate_slots n l x r (in_left false px pr) g path hl hr o e u = absurd (ground (arith, e))
  rotate_slots n l x r (in_right false pl px) g path hl hr o e u = absurd (ground (arith, e))

  pub split_slots :
      (n : ℕ) (l : Tree A) (x : A) (r : Tree A) (path : List (Frame A))
      → Balanced true n l
      → Balanced true n r
      → Open n path
      → Uncle path
      → BothOpen n (split l x r path)
  unfolding split
  split_slots n l x r [] hl hr o u = red_slots n l x r [] hl hr o refl
  split_slots n l x r (p ∷ []) hl hr o u = red_slots n l x r (p ∷ []) hl hr o u
  split_slots n l x r (p ∷ g ∷ path) hl hr o u = elim (Bool-cases (frame_is_red p)) [
    | inl e ↦ rw (e, split) (rotate_slots n l x r p g path hl hr o e (u e))
    | inr e ↦ rw (e, split) (red_slots n l x r (p ∷ g ∷ path) hl hr o e)
  ]

  pub link-IsBalanced :
      (k : A) (path : List (Frame A)) → Open 0 path → Uncle path → IsBalanced (link k path)
  unfolding link
  link-IsBalanced k [] o u = (0, (refl, refl, refl))
  link-IsBalanced k (p ∷ path) o u =
      let slots = split_slots 0 nil k nil (p ∷ path) refl refl o u in
      plug_below_red (split nil k nil (p ∷ path)).at_left 0 nil slots.0 refl
