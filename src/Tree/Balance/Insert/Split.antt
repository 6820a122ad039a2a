-- ===== src/Tree/Balance/Insert/Split.antt =====
-- `maybe_split_for_insert` on the way down.
use sipecho.Common.{
  ℕ, zero, suc, Bool, true, false, List, [], ◌∷◌, ◌≡◌, refl, arith, Bool-cases, inl, inr,
}
use sipecho.Tree.{Tree, nil, node, Frame, in_left, in_right, is_red, frame_is_red, blacken}
use sipecho.Tree.Search.{Slots, plain, split, needs_split, maybe_split}
use sipecho.Tree.Balance.{Balanced, above_red, Open, weaken}
use sipecho.Tree.Balance.Insert.Rotation.{not_both, not_both_flip, Uncle, Alone, split_slots}

module _ {A : Type 0} where
  -- What `descend` finds at a node: one that the step above has made black has no red child; else
  -- its place is right for a split.
  abbrev pub Fits : ℕ → List (Frame A) → Bool → Tree A → Type 0
  Fits n path false t =
      Open n path × Balanced (above_red path) n t × Uncle path × Alone path (is_red t)
  Fits n path true nil = ⊥
  Fits n path true (node red l x r) =
      Open n path × Balanced false n (node false l x r) × (is_red l ≡ false) × (is_red r ≡ false)

  pub red_false : (n : ℕ) (t : Tree A) → Balanced true n t → is_red t ≡ false
  red_false n nil h = refl
  red_false n (node true l x r) h = absurd (ground (arith, h.0))
  red_false n (node false l x r) h = refl

  -- The slots below a node of colour `c` fit its subtrees.
  abbrev pub SlotsFit : Slots A → Bool → Tree A → Tree A → Type 0
  SlotsFit s black l r = (n : ℕ) × (Fits n s.at_left black l × Fits n s.at_right black r)

  pub Uncle-Alone :
      (f : Frame A) (path : List (Frame A)) → Alone path (frame_is_red f) → Uncle (f ∷ path)
  Uncle-Alone f [] a = a
  Uncle-Alone f (g ∷ path) a = a

  pub plain-SlotsFit :
      (n : ℕ) (c : Bool) (l : Tree A) (x : A) (r : Tree A) (path : List (Frame A))
      → Open n path
      → Balanced (above_red path) n (node c l x r)
      → Alone path c
      → needs_split l r ≡ false
      → SlotsFit (plain c l x r path) false l r
  plain-SlotsFit n true l x r path o h a e = (
    n,
    (
      ((h.2, h.0, o), h.1, Uncle-Alone (in_left true x r) path a, not_both (is_red l) (is_red r) e),
      (
        (h.1, h.0, o),
        h.2,
        Uncle-Alone (in_right true l x) path a,
        not_both_flip (is_red l) (is_red r) e,
      ),
    ),
  )
  plain-SlotsFit zero false l x r path o h a e = absurd h
  plain-SlotsFit (suc n) false l x r path o h a e = (
    n,
    (
      ((h.1, o), h.0, Uncle-Alone (in_left false x r) path a, not_both (is_red l) (is_red r) e),
      (
        (h.0, o),
        h.1,
        Uncle-Alone (in_right false l x) path a,
        not_both_flip (is_red l) (is_red r) e,
      ),
    ),
  )

  pub both_red-SlotsFit :
      (n : ℕ) (c : Bool) (l : Tree A) (x : A) (r : Tree A) (path : List (Frame A))
      → Open n path
      → Balanced (above_red path) n (node c l x r)
      → Uncle path
      → needs_split l r ≡ true
      → SlotsFit (split (blacken l) x (blacken r) path) true l r
  both_red-SlotsFit n c nil x r path o h u e = absurd (ground (arith, e))
  both_red-SlotsFit n c (node false ll lx lr) x r path o h u e = absurd (ground (arith, e))
  both_red-SlotsFit n c (node true ll lx lr) x nil path o h u e = absurd (ground (arith, e))
  both_red-SlotsFit n c (node true ll lx lr) x (node false rl rx rr) path o h u e =
      absurd (ground (arith, e))
  both_red-SlotsFit n true (node true ll lx lr) x (node true rl rx rr) path o h u e =
      absurd (ground (arith, h.1.0))
  both_red-SlotsFit zero false (node true ll lx lr) x (node true rl rx rr) path o h u e = absurd h
  both_red-SlotsFit (suc n) false (node true ll lx lr) x (node true rl rx rr) path o h u e =
      let bl : Balanced true (suc n) (node false ll lx lr) =
        (weaken false n ll h.0.1, weaken false n lr h.0.2) in
      let br : Balanced true (suc n) (node false rl rx rr) =
        (weaken false n rl h.1.1, weaken false n rr h.1.2) in
      let (ol, or) =
        split_slots (suc n) (node false ll lx lr) x (node false rl rx rr) path bl br o u in
      (
        suc n,
        (
          (ol, bl, red_false n ll h.0.1, red_false n lr h.0.2),
          (or, br, red_false n rl h.1.1, red_false n rr h.1.2),
        ),
      )

  pub maybe_split-SlotsFit :
      (n : ℕ) (c : Bool) (l : Tree A) (x : A) (r : Tree A) (path : List (Frame A))
      → Open n path
      → Balanced (above_red path) n (node c l x r)
      → Uncle path
      → Alone path c
      → SlotsFit (maybe_split c l x r path) (needs_split l r) l r
  unfolding maybe_split
  maybe_split-SlotsFit n c l x r path o h u a = elim (Bool-cases (needs_split l r)) [
    | inl e ↦ rw (e, maybe_split) (both_red-SlotsFit n c l x r path o h u e)
    | inr e ↦ rw (e, maybe_split) (plain-SlotsFit n c l x r path o h a e)
  ]

  pub Alone-black : (path : List (Frame A)) → Alone path false
  Alone-black [] = refl
  Alone-black (f ∷ path) = λ e. absurd (ground (arith, e))

  -- A node made black by the step above is not split again.
  pub black-SlotsFit :
      (n : ℕ) (l : Tree A) (x : A) (r : Tree A) (path : List (Frame A))
      → Open n path
      → Balanced false n (node false l x r)
      → is_red l ≡ false
      → is_red r ≡ false
      → SlotsFit (maybe_split false l x r path) (needs_split l r) l r
  unfolding maybe_split
  black-SlotsFit zero l x r path o h a b = absurd h
  black-SlotsFit (suc n) l x r path o h a b =
      let e : needs_split l r ≡ false = rw a refl in
      rw (e, maybe_split) (plain-SlotsFit (suc n) false l x r path o h (Alone-black path) e)
