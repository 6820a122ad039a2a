-- ===== src/Tree/Balance/Delete/Rebalance.antt =====
-- The loop of `tdelete2` that makes up for a lost black edge.
use sipecho.Common.{
  ℕ, zero, suc, Bool, true, false, List, [], ◌∷◌, ◌≡◌, refl, sym, subst, arith, Bool-cases, inl,
  inr,
}
use sipecho.Tree.{Tree, nil, node, Frame, in_left, in_right, is_red, plug, blacken}
use sipecho.Tree.Delete.{Repair, short, done, repair_left, repair_right, settle, rebalance}
use sipecho.Tree.Balance.{
  Balanced, above_red, Open, IsBalanced, weaken, plug-IsBalanced, plug_below_red,
}
use sipecho.Tree.Balance.Delete.Brother.{
  Short, Repaired, repair_left-Repaired, repair_right-Repaired,
}

module _ {A : Type 0} where
  pub red-Short :
      (above : Bool) (n : ℕ) (r : Tree A)
      → is_red r ≡ true
      → Short n r
      → Balanced above (suc n) (blacken r)
  red-Short above n nil e h = absurd (ground (arith, e))
  red-Short above n (node true l x r) e h = h
  red-Short above n (node false l x r) e h = absurd (ground (arith, e))

  pub black-Short : (n : ℕ) (r : Tree A) → is_red r ≡ false → Short n r → Balanced true n r
  black-Short n nil e h = h
  black-Short n (node true l x r) e h = absurd (ground (arith, e))
  black-Short zero (node false l x r) e h = h
  black-Short (suc n) (node false l x r) e h = h

  pub Balanced-Short : (n : ℕ) (r : Tree A) → Balanced false n r → Short n r
  Balanced-Short n nil h = h
  Balanced-Short n (node true l x r) h = (weaken false n l h.1, weaken false n r h.2)
  Balanced-Short zero (node false l x r) h = h
  Balanced-Short (suc n) (node false l x r) h = h

  pub blacken_root : (n : ℕ) (r : Tree A) → Short n r → IsBalanced (blacken r)
  blacken_root n nil h = (n, h)
  blacken_root n (node true l x r) h = (suc n, h)
  blacken_root zero (node false l x r) h = absurd h
  blacken_root (suc n) (node false l x r) h = (suc n, h)

  pub plug_black :
      (path : List (Frame A)) (n : ℕ) (t : Tree A)
      → above_red path ≡ false
      → Open n path
      → Balanced false n t
      → IsBalanced (plug path t)
  plug_black path n t e o h = plug-IsBalanced path n t o (subst (λ c. Balanced c n t) (sym e) h)

  pub settle-IsBalanced :
      (n : ℕ) (path : List (Frame A)) (rep : Repair A)
      → above_red path ≡ false
      → Open (suc n) path
      → Repaired true n rep
      → IsBalanced (settle path rep)
  unfolding settle
  settle-IsBalanced n path (short t) e o h =
      plug_black path (suc n) (blacken t) e o (red-Short false n t h.0 h.1)
  settle-IsBalanced n path (done t) e o h = plug_black path (suc n) t e o h

  -- The slot of P, by its colour.
  abbrev pub OpenBelow : Bool → ℕ → List (Frame A) → Type 0
  OpenBelow true n path = (above_red path ≡ false) × Open (suc n) path
  OpenBelow false n path = Open (suc (suc n)) path

  pub resume-IsBalanced :
      (c : Bool) (n : ℕ) (path : List (Frame A)) (rep : Repair A)
      → ((m : ℕ) (t : Tree A) → Short m t → Open (suc m) path → IsBalanced (rebalance t path))
      → OpenBelow c n path
      → Repaired c n rep
      → IsBalanced
          (elim rep as (λ rep. Tree A) [ short t ↦ rebalance t path | done t ↦ plug path t ])
  resume-IsBalanced true n path (short t) rec o h = rec n t h.1 o.1
  resume-IsBalanced true n path (done t) rec o h = plug_black path (suc n) t o.0 o.1 h
  resume-IsBalanced false n path (short t) rec o h = rec (suc n) t h o
  resume-IsBalanced false n path (done t) rec o h = plug_below_red path (suc (suc n)) t o h

  -- Where the slot wants one black edge more than the subtree has, the loop makes up for it.
  pub rebalance-IsBalanced :
      (n : ℕ) (r : Tree A) (path : List (Frame A))
      → Short n r
      → Open (suc n) path
      → IsBalanced (rebalance r path)
  unfolding rebalance
  rebalance-IsBalanced n r [] h o = blacken_root n r h
  rebalance-IsBalanced n r (in_left true k (node true ql qk qr) ∷ path) h o =
      absurd (ground (arith, o.0.0))
  rebalance-IsBalanced n r (in_left false k (node true ql qk qr) ∷ path) h o =
      elim (Bool-cases (is_red r)) [
        | inl e ↦
            rw (e, rebalance)
              (plug-IsBalanced (in_left false k (node true ql qk qr) ∷ path) (suc n) (blacken r) o
                (red-Short false n r e h))
        | inr e ↦
            rw (e, rebalance)
              (settle-IsBalanced n (in_left false qk qr ∷ path) (repair_left r true k ql) refl
                (weaken false (suc n) qr o.0.2, o.1)
                (repair_left-Repaired true n r k ql (black-Short n r e h) o.0.1))
      ]
  rebalance-IsBalanced n r (in_left true k nil ∷ path) h o = absurd (omega (arith, o.0))
  rebalance-IsBalanced n r (in_left true k (node false ql qk qr) ∷ path) h o =
      elim (Bool-cases (is_red r)) [
        | inl e ↦
            rw (e, rebalance)
              (plug-IsBalanced (in_left true k (node false ql qk qr) ∷ path) (suc n) (blacken r) o
                (red-Short true n r e h))
        | inr e ↦
            rw (e, rebalance)
              (resume-IsBalanced true n path (repair_left r true k (node false ql qk qr))
                (λ m t. rebalance-IsBalanced m t path) (o.1, o.2)
                (repair_left-Repaired true n r k (node false ql qk qr) (black-Short n r e h) o.0))
      ]
  rebalance-IsBalanced n r (in_left false k nil ∷ path) h o = absurd (omega (arith, o.0))
  rebalance-IsBalanced n r (in_left false k (node false ql qk qr) ∷ path) h o =
      elim (Bool-cases (is_red r)) [
        | inl e ↦
            rw (e, rebalance)
              (plug-IsBalanced (in_left false k (node false ql qk qr) ∷ path) (suc n) (blacken r) o
                (red-Short false n r e h))
        | inr e ↦
            rw (e, rebalance)
              (resume-IsBalanced false n path (repair_left r false k (node false ql qk qr))
                (λ m t. rebalance-IsBalanced m t path) o.1
                (repair_left-Repaired false n r k (node false ql qk qr) (black-Short n r e h) o.0))
      ]
  rebalance-IsBalanced n r (in_right true (node true ql qk qr) k ∷ path) h o =
      absurd (ground (arith, o.0.0))
  rebalance-IsBalanced n r (in_right false (node true ql qk qr) k ∷ path) h o =
      elim (Bool-cases (is_red r)) [
        | inl e ↦
            rw (e, rebalance)
              (plug-IsBalanced (in_right false (node true ql qk qr) k ∷ path) (suc n) (blacken r) o
                (red-Short false n r e h))
        | inr e ↦
            rw (e, rebalance)
              (settle-IsBalanced n (in_right false ql qk ∷ path) (repair_right r true k qr) refl
                (weaken false (suc n) ql o.0.1, o.1)
                (repair_right-Repaired true n r k qr (black-Short n r e h) o.0.2))
      ]
  rebalance-IsBalanced n r (in_right true nil k ∷ path) h o = absurd (omega (arith, o.0))
  rebalance-IsBalanced n r (in_right true (node false ql qk qr) k ∷ path) h o =
      elim (Bool-cases (is_red r)) [
        | inl e ↦
            rw (e, rebalance)
              (plug-IsBalanced (in_right true (node false ql qk qr) k ∷ path) (suc n) (blacken r) o
                (red-Short true n r e h))
        | inr e ↦
            rw (e, rebalance)
              (resume-IsBalanced true n path (repair_right r true k (node false ql qk qr))
                (λ m t. rebalance-IsBalanced m t path) (o.1, o.2)
                (repair_right-Repaired true n r k (node false ql qk qr) (black-Short n r e h) o.0))
      ]
  rebalance-IsBalanced n r (in_right false nil k ∷ path) h o = absurd (omega (arith, o.0))
  rebalance-IsBalanced n r (in_right false (node false ql qk qr) k ∷ path) h o =
      elim (Bool-cases (is_red r)) [
        | inl e ↦
            rw (e, rebalance)
              (plug-IsBalanced (in_right false (node false ql qk qr) k ∷ path) (suc n) (blacken r) o
                (red-Short false n r e h))
        | inr e ↦
            rw (e, rebalance)
              (resume-IsBalanced false n path (repair_right r false k (node false ql qk qr))
                (λ m t. rebalance-IsBalanced m t path) o.1
                (repair_right-Repaired false n r k (node false ql qk qr) (black-Short n r e h) o.0))
      ]
