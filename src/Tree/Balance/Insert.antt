-- ===== src/Tree/Balance/Insert.antt =====
-- `tsearch2` keeps the tree balanced.
pub mod Rotation
pub mod Split
use sipecho.Common.{
  ℕ, zero, suc, ◌+◌, Bool, true, false, not, ◌&&◌, List, [], ◌∷◌, ◌≡◌, refl, sym, subst, arith,
  Bool-cases, inl, inr, Ordering,
}
use sipecho.Tree.{Tree, nil, node, Frame, in_left, in_right, is_red, frame_is_red, plug, blacken}
use sipecho.Tree.Search.{
  Slots, plain, rotate, split, needs_split, maybe_split, link, descend, tsearch2,
}
use sipecho.Tree.Balance.{
  Balanced, above_red, Open, IsBalanced, weaken, below_red, below_black, plug-IsBalanced,
  plug_below_red,
}
use sipecho.Tree.Balance.Insert.Rotation.{
  not_both, not_both_flip, brother, Uncle, Alone, BothOpen, red_slots, rotate_slots, split_slots,
  link-IsBalanced,
}
use sipecho.Tree.Balance.Insert.Split.{
  Fits, red_false, SlotsFit, Uncle-Alone, plain-SlotsFit, both_red-SlotsFit, maybe_split-SlotsFit,
  Alone-black, black-SlotsFit,
}

module _ {A : Type 0} where
  by_order :
      (o : Ordering) (a b c : A × Tree A)
      → IsBalanced a.1
      → IsBalanced b.1
      → IsBalanced c.1
      → IsBalanced
          (elim o as (λ o. A × Tree A) [ Ordering.eq ↦ a | Ordering.lt ↦ b | Ordering.gt ↦ c ]).1
  by_order Ordering.eq a b c p q r = p
  by_order Ordering.lt a b c p q r = q
  by_order Ordering.gt a b c p q r = r

  black_anywhere :
      (above : Bool) (n : ℕ) (l : Tree A) (x : A) (r : Tree A)
      → Balanced false n (node false l x r)
      → Balanced above n (node false l x r)
  black_anywhere above zero l x r h = h
  black_anywhere above (suc n) l x r h = h

  descend-IsBalanced :
      (cmp : A → A → Ordering) (k : A) (n : ℕ) (path : List (Frame A)) (black : Bool) (t : Tree A)
      → Fits n path black t
      → IsBalanced (descend cmp k path black t).1
  unfolding descend
  descend-IsBalanced cmp k n path true nil f = absurd f
  descend-IsBalanced cmp k n path false nil f =
      link-IsBalanced k path (subst (λ m. Open m path) f.1 f.0) f.2
  descend-IsBalanced cmp k n path true (node true l x r) f =
      let (m, fits) = black-SlotsFit n l x r path f.0 f.1 f.2 f.3 in
      let slots = maybe_split false l x r path in
      by_order (cmp k x) _ _ _
        (plug-IsBalanced path n (node false l x r) f.0
          (black_anywhere (above_red path) n l x r f.1))
        (descend-IsBalanced cmp k m slots.at_left (needs_split l r) l fits.0)
        (descend-IsBalanced cmp k m slots.at_right (needs_split l r) r fits.1)
  descend-IsBalanced cmp k n path true (node false l x r) f =
      let (m, fits) = black-SlotsFit n l x r path f.0 f.1 f.2 f.3 in
      let slots = maybe_split false l x r path in
      by_order (cmp k x) _ _ _
        (plug-IsBalanced path n (node false l x r) f.0
          (black_anywhere (above_red path) n l x r f.1))
        (descend-IsBalanced cmp k m slots.at_left (needs_split l r) l fits.0)
        (descend-IsBalanced cmp k m slots.at_right (needs_split l r) r fits.1)
  descend-IsBalanced cmp k n path false (node true l x r) f =
      let (m, fits) = maybe_split-SlotsFit n true l x r path f.0 f.1 f.2 f.3 in
      let slots = maybe_split true l x r path in
      by_order (cmp k x) _ _ _ (plug-IsBalanced path n (node true l x r) f.0 f.1)
        (descend-IsBalanced cmp k m slots.at_left (needs_split l r) l fits.0)
        (descend-IsBalanced cmp k m slots.at_right (needs_split l r) r fits.1)
  descend-IsBalanced cmp k n path false (node false l x r) f =
      let (m, fits) = maybe_split-SlotsFit n false l x r path f.0 f.1 f.2 f.3 in
      let slots = maybe_split false l x r path in
      by_order (cmp k x) _ _ _ (plug-IsBalanced path n (node false l x r) f.0 f.1)
        (descend-IsBalanced cmp k m slots.at_left (needs_split l r) l fits.0)
        (descend-IsBalanced cmp k m slots.at_right (needs_split l r) r fits.1)

  blacken-IsBalanced : (n : ℕ) (t : Tree A) → Balanced false n t → IsBalanced (blacken t)
  blacken-IsBalanced n nil h = (n, h)
  blacken-IsBalanced n (node true l x r) h = (suc n, (weaken false n l h.1, weaken false n r h.2))
  blacken-IsBalanced n (node false l x r) h = (n, h)

  black_root : (t : Tree A) → Alone {A = A} [] (is_red (blacken t))
  black_root nil = refl
  black_root (node red l x r) = refl

  descend-blacken :
      (cmp : A → A → Ordering) (k : A) (t : Tree A)
      → descend cmp k [] true t ≡ descend cmp k [] false (blacken t)
  unfolding descend
  descend-blacken cmp k nil = refl
  descend-blacken cmp k (node true l x r) = refl
  descend-blacken cmp k (node false l x r) = refl

  -- Insertion into a balanced tree, with any comparison, leaves a balanced tree: no two red edges in
  -- a row, and as many black edges on every way down.
  pub tsearch2-IsBalanced :
      (cmp : A → A → Ordering) (k : A) (t : Tree A) → IsBalanced t → IsBalanced (tsearch2 cmp k t).1
  unfolding tsearch2
  tsearch2-IsBalanced cmp k t h =
      let (n, b) = blacken-IsBalanced h.0 t h.1 in
      rw (descend-blacken cmp k t)
        (descend-IsBalanced cmp k n [] false (blacken t) (tt, b, tt, black_root t))
