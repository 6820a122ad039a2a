-- ===== src/Tree/Balance/Height.antt =====
-- How high a balanced tree is, and that `tdelete2` never runs out of its stack of 100 nodes.
use sipecho.Common.{
  ℕ, zero, suc, ◌+◌, ◌*◌, ◌^◌, ◌≤◌, ◌<◌, Bool, true, false, ◌≡◌, refl, sym, subst, arith, Ordering,
}
use native.Mathlib.Nat.{pow-le-pow_right}
use native.Mathlib.Decide.{dec_lt}
use native.Mathlib.Numerals.{towards_suc}
use sipecho.Tree.{Tree, nil, node}
use sipecho.Tree.Delete.Stack.{
  leftmost_aborts, delete_node_aborts, delete_from_aborts, tdelete2_aborts,
}
use sipecho.Tree.Balance.{Balanced, IsBalanced}

module _ {A : Type 0} where
  -- `height t ≤ k`, in a form that adds up.
  abbrev pub NoHigher : ℕ → Tree A → Type 0
  NoHigher k nil = Unit
  NoHigher zero (node red l x r) = ⊥
  NoHigher (suc k) (node red l x r) = NoHigher k l × NoHigher k r

  abbrev pub size : Tree A → ℕ
  size nil = 0
  size (node red l x r) = suc (size l + size r)

  pow-size : (above : Bool) (n : ℕ) (t : Tree A) → Balanced above n t → 2 ^ n ≤ size t + 1
  pow-size above n nil h = subst (λ m. 2 ^ m ≤ 1) (sym h) (omega arith)
  pow-size above n (node true l x r) h = omega (arith, pow-size true n l h.1, pow-size true n r h.2)
  pow-size above zero (node false l x r) h = absurd h
  pow-size above (suc n) (node false l x r) h =
      simp towards_suc (omega (arith, pow-size false n l h.0, pow-size false n r h.1))

  higher : (k : ℕ) (t : Tree A) → NoHigher k t → NoHigher (suc k) t
  higher k nil h = tt
  higher zero (node red l x r) h = absurd h
  higher (suc k) (node red l x r) h = (higher k l h.0, higher k r h.1)

  at_height : {j k : ℕ} (t : Tree A) → j ≡ k → NoHigher j t → NoHigher k t
  at_height t e h = subst (λ k. NoHigher k t) e h

  mutual
    below_red-NoHigher : (n : ℕ) (t : Tree A) → Balanced true n t → NoHigher (2 * n) t
    below_red-NoHigher n nil h = tt
    below_red-NoHigher n (node true l x r) h = absurd (ground (arith, h.0))
    below_red-NoHigher zero (node false l x r) h = absurd h
    below_red-NoHigher (suc n) (node false l x r) h =
        at_height {j = suc (suc (2 * n))} {k = 2 * suc n} (node false l x r) (omega arith)
          (below_black-NoHigher n l h.0, below_black-NoHigher n r h.1)

    below_black-NoHigher : (n : ℕ) (t : Tree A) → Balanced false n t → NoHigher (suc (2 * n)) t
    below_black-NoHigher n nil h = tt
    below_black-NoHigher n (node true l x r) h =
        (below_red-NoHigher n l h.1, below_red-NoHigher n r h.2)
    below_black-NoHigher zero (node false l x r) h = absurd h
    below_black-NoHigher (suc n) (node false l x r) h =
        at_height {j = suc (suc (suc (2 * n)))} {k = suc (2 * suc n)} (node false l x r)
          (omega arith)
          (
            higher (suc (2 * n)) l (below_black-NoHigher n l h.0),
            higher (suc (2 * n)) r (below_black-NoHigher n r h.1),
          )

  -- Room for the way down is room for every push.
  leftmost_aborts-NoHigher :
      (stack_size sp h : ℕ) (t : Tree A)
      → NoHigher h t
      → sp + h ≤ stack_size
      → leftmost_aborts stack_size sp t ≡ false
  unfolding leftmost_aborts
  leftmost_aborts-NoHigher stack_size sp h nil b fits = refl
  leftmost_aborts-NoHigher stack_size sp zero (node red l x r) b fits = absurd b
  leftmost_aborts-NoHigher stack_size sp (suc h) (node red l x r) b fits =
      ground (arith, leftmost_aborts-NoHigher stack_size (suc sp) h l b.0 (omega arith))

  delete_node_aborts_rest :
      (stack_size sp : ℕ) (l r : Tree A)
      → leftmost_aborts stack_size sp r ≡ false
      → delete_node_aborts stack_size sp l r ≡ false
  unfolding delete_node_aborts
  delete_node_aborts_rest stack_size sp nil r e = refl
  delete_node_aborts_rest stack_size sp (node red l x r) nil e = refl
  delete_node_aborts_rest stack_size sp (node red ll lx lr) (node r_red rl rx rr) e = e

  delete_from_aborts-NoHigher :
      (stack_size : ℕ) (cmp : A → A → Ordering) (k : A) (sp h : ℕ) (t : Tree A)
      → NoHigher h t
      → sp + h ≤ stack_size
      → delete_from_aborts stack_size cmp k sp t ≡ false
  unfolding delete_from_aborts
  delete_from_aborts-NoHigher stack_size cmp k sp h nil b fits = refl
  delete_from_aborts-NoHigher stack_size cmp k sp zero (node red l x r) b fits = absurd b
  delete_from_aborts-NoHigher stack_size cmp k sp (suc h) (node red l x r) b fits =
      let left = delete_from_aborts-NoHigher stack_size cmp k (suc sp) h l b.0 (omega arith) in
      let right = delete_from_aborts-NoHigher stack_size cmp k (suc sp) h r b.1 (omega arith) in
      let down = leftmost_aborts-NoHigher stack_size sp h r b.1 (omega arith) in
      ground (arith, left, right, delete_node_aborts_rest stack_size sp l r down)

few_black : (n k : ℕ) → 2 ^ n < 2 ^ k → n < k
few_black n k h = elim (dec_lt n k) [
  | yes p ↦ p
  | no p ↦
      absurd (omega (arith, pow-le-pow_right {n = 2} (omega arith) {i = k} {j = n} (omega arith)))
]

module _ {A : Type 0} where
  -- A balanced tree of fewer than 2^50 - 1 nodes never fills the stack of 100 nodes. The one push of
  -- the rebalancing, which is not tested, has room too.
  pub tdelete2_aborts-IsBalanced :
      (cmp : A → A → Ordering) (k : A) (t : Tree A)
      → IsBalanced t
      → size t + 1 < 2 ^ 50
      → tdelete2_aborts cmp k t ≡ false
  unfolding tdelete2_aborts
  tdelete2_aborts-IsBalanced cmp k t (n, b) few =
      delete_from_aborts-NoHigher 100 cmp k 0 (suc (2 * n)) t (below_black-NoHigher n t b)
        (omega (arith, few_black n 50 (omega (arith, pow-size false n t b))))
