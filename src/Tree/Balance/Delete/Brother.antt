-- ===== src/Tree/Balance/Delete/Brother.antt =====
-- One repair of `tdelete2` below a node.
use sipecho.Common.{ℕ, zero, suc, Bool, true, false, ◌≡◌, refl, arith}
use sipecho.Tree.{Tree, nil, node, is_red}
use sipecho.Tree.Delete.{Repair, short, done, repair_left, repair_right}
use sipecho.Tree.Balance.{Balanced, weaken, below_red}

module _ {A : Type 0} where
  -- A subtree that is one black edge short of `suc n`, unless its root is red and becomes black.
  abbrev pub Short : ℕ → Tree A → Type 0
  Short n nil = n ≡ 0
  Short n (node true l x r) = Balanced false n l × Balanced false n r
  Short zero (node false l x r) = ⊥
  Short (suc n) (node false l x r) = Balanced false n l × Balanced false n r

  -- What a repair below a node of colour `c` leaves, where the slot wants `n` black edges below it.
  abbrev pub Repaired : Bool → ℕ → Repair A → Type 0
  Repaired true n (short t) = is_red t ≡ true × Short n t
  Repaired false n (short t) = Short (suc n) t
  Repaired true n (done t) = Balanced false (suc n) t
  Repaired false n (done t) = Balanced true (suc (suc n)) t

  -- Two black nodes below one that has the colour of P.
  pub done-Repaired :
      (c : Bool) (n : ℕ) (t u : Tree A) (x y z : A) (v w : Tree A)
      → Balanced false n t
      → Balanced false n u
      → Balanced false n v
      → Balanced false n w
      → Repaired c n (done (node c (node false t x u) y (node false v z w)))
  done-Repaired true n t u x y z v w a b d e = (refl, (a, b), (d, e))
  done-Repaired false n t u x y z v w a b d e = ((a, b), (d, e))

  -- Q becomes red.
  pub short_left-Repaired :
      (c : Bool) (n : ℕ) (r : Tree A) (k : A) (ql : Tree A) (qk : A) (qr : Tree A)
      → Balanced false n r
      → Balanced true n ql
      → Balanced true n qr
      → Repaired c n (short (node c r k (node true ql qk qr)))
  short_left-Repaired true n r k ql qk qr hr a b = (refl, (hr, (refl, a, b)))
  short_left-Repaired false n r k ql qk qr hr a b = (hr, (refl, a, b))

  pub short_right-Repaired :
      (c : Bool) (n : ℕ) (r : Tree A) (k : A) (ql : Tree A) (qk : A) (qr : Tree A)
      → Balanced false n r
      → Balanced true n ql
      → Balanced true n qr
      → Repaired c n (short (node c (node true ql qk qr) k r))
  short_right-Repaired true n r k ql qk qr hr a b = (refl, ((refl, a, b), hr))
  short_right-Repaired false n r k ql qk qr hr a b = ((refl, a, b), hr)

  pub repair_left-Repaired :
      (c : Bool) (n : ℕ) (r : Tree A) (k : A) (q : Tree A)
      → Balanced true n r
      → Balanced true (suc n) q
      → Repaired c n (repair_left r c k q)
  unfolding repair_left
  repair_left-Repaired c n r k nil hr hq = absurd (ground (arith, hq))
  repair_left-Repaired c n r k (node true ql qk qr) hr hq = absurd (ground (arith, hq.0))
  repair_left-Repaired c n r k (node false ql qk (node true a y b)) hr hq =
      done-Repaired c n r ql k qk y a b (weaken false n r hr) hq.0 (weaken false n a hq.1.1)
        (weaken false n b hq.1.2)
  repair_left-Repaired c n r k (node false nil qk nil) hr hq =
      short_left-Repaired c n r k nil qk nil (weaken false n r hr) hq.0 hq.1
  repair_left-Repaired c n r k (node false nil qk (node false u v w)) hr hq =
      short_left-Repaired c n r k nil qk (node false u v w) (weaken false n r hr) hq.0
        (below_red false n (node false u v w) refl hq.1)
  repair_left-Repaired c n r k (node false (node false a y b) qk nil) hr hq =
      short_left-Repaired c n r k (node false a y b) qk nil (weaken false n r hr)
        (below_red false n (node false a y b) refl hq.0) hq.1
  repair_left-Repaired c n r k (node false (node false a y b) qk (node false u v w)) hr hq =
      short_left-Repaired c n r k (node false a y b) qk (node false u v w) (weaken false n r hr)
        (below_red false n (node false a y b) refl hq.0)
        (below_red false n (node false u v w) refl hq.1)
  repair_left-Repaired c n r k (node false (node true a y b) qk nil) hr hq =
      done-Repaired c n r a k y qk b nil (weaken false n r hr) (weaken false n a hq.0.1)
        (weaken false n b hq.0.2) hq.1
  repair_left-Repaired c n r k (node false (node true a y b) qk (node false u v w)) hr hq =
      done-Repaired c n r a k y qk b (node false u v w) (weaken false n r hr)
        (weaken false n a hq.0.1) (weaken false n b hq.0.2) hq.1

  pub repair_right-Repaired :
      (c : Bool) (n : ℕ) (r : Tree A) (k : A) (q : Tree A)
      → Balanced true n r
      → Balanced true (suc n) q
      → Repaired c n (repair_right r c k q)
  unfolding repair_right
  repair_right-Repaired c n r k nil hr hq = absurd (ground (arith, hq))
  repair_right-Repaired c n r k (node true ql qk qr) hr hq = absurd (ground (arith, hq.0))
  repair_right-Repaired c n r k (node false (node true a y b) qk qr) hr hq =
      done-Repaired c n a b y qk k qr r (weaken false n a hq.0.1) (weaken false n b hq.0.2) hq.1
        (weaken false n r hr)
  repair_right-Repaired c n r k (node false nil qk nil) hr hq =
      short_right-Repaired c n r k nil qk nil (weaken false n r hr) hq.0 hq.1
  repair_right-Repaired c n r k (node false nil qk (node false u v w)) hr hq =
      short_right-Repaired c n r k nil qk (node false u v w) (weaken false n r hr) hq.0
        (below_red false n (node false u v w) refl hq.1)
  repair_right-Repaired c n r k (node false (node false a y b) qk nil) hr hq =
      short_right-Repaired c n r k (node false a y b) qk nil (weaken false n r hr)
        (below_red false n (node false a y b) refl hq.0) hq.1
  repair_right-Repaired c n r k (node false (node false a y b) qk (node false u v w)) hr hq =
      short_right-Repaired c n r k (node false a y b) qk (node false u v w) (weaken false n r hr)
        (below_red false n (node false a y b) refl hq.0)
        (below_red false n (node false u v w) refl hq.1)
  repair_right-Repaired c n r k (node false nil qk (node true a y b)) hr hq =
      done-Repaired c n nil a qk y k b r hq.0 (weaken false n a hq.1.1) (weaken false n b hq.1.2)
        (weaken false n r hr)
  repair_right-Repaired c n r k (node false (node false u v w) qk (node true a y b)) hr hq =
      done-Repaired c n (node false u v w) a qk y k b r hq.0 (weaken false n a hq.1.1)
        (weaken false n b hq.1.2) (weaken false n r hr)
