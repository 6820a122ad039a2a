-- ===== src/Map/Find.antt =====
-- `map_find`: what a search finds in a well-formed map, and after a push.
use sipecho.Common.{
  ℕ, zero, suc, List, [], ◌∷◌, ◌≡◌, ◌∙◌, inl, inr, refl, sym, Option, none, some, Ordering, In,
  Option-cases, get_elem?,
}
use mathlib.Core.Path.{subst}
use sipecho.Tree.Spec.{inorder, find}
use sipecho.Tree.Refine.{tfind2-find}
use sipecho.Tree.Sorted.{find-In, find_of_In}
use sipecho.Map.{Node, Index, Map, node_cmp, map_search, map_find, probe}
use sipecho.Map.Invariant.{IsIndex, AllIndex, IsMap, NoEqual}
use sipecho.Map.Keying.{node-IsOrder}

module _ {A : Type 0} where
  AllIndex-get :
      (nodes : List (Node A)) (ks : List (Index A)) (i : ℕ) (k : Index A)
      → AllIndex nodes ks
      → get_elem? ks i ≡ some k
      → IsIndex nodes k
  AllIndex-get nodes [] i k h e = cc
  AllIndex-get nodes (x ∷ ks) zero k h e = subst (IsIndex nodes) (cc) h.0
  AllIndex-get nodes (x ∷ ks) (suc i) k h e = AllIndex-get nodes ks i k h.1 e

  module _ (m : Map A) (i : ℕ) (k : Index A) (v : IsMap m) (at_i : get_elem? m.key i ≡ some k) where
    map_search-find :
        (a : A) → map_search m a i ≡ find (node_cmp k.cmp) (probe m a) (inorder k.root)
    unfolding map_search
    map_search-find a =
        let ix = AllIndex-get m.nodes m.key i k v.keyed at_i in
        rw (at_i, map_search) (tfind2-find (node-IsOrder ix.order) (probe m a) k.root ix.sorted)

    -- A node that compares equal is the one that the search finds.
    pub map_search_of_In :
        (a : A) (n : Node A)
        → In n m.nodes
        → k.cmp a n.item ≡ Ordering.eq
        → map_search m a i ≡ some n
    map_search_of_In a n j e =
        let ix = AllIndex-get m.nodes m.key i k v.keyed at_i in
        map_search-find a
        ∙ find_of_In (node-IsOrder ix.order) (probe m a) n (inorder k.root) ix.sorted
            (ix.complete n j) e

    -- What a search finds is a node of the map that compares equal.
    pub map_search-Equal :
        (a : A) (n : Node A)
        → map_search m a i ≡ some n
        → In n m.nodes × (k.cmp a n.item ≡ Ordering.eq)
    map_search-Equal a n h =
        let ix = AllIndex-get m.nodes m.key i k v.keyed at_i in
        let (j, e) =
          find-In (node_cmp k.cmp) (probe m a) n (inorder k.root) (sym (map_search-find a) ∙ h) in
        (ix.sound n j, e)

    pub map_search-none : (a : A) → NoEqual k.cmp a m.nodes → map_search m a i ≡ none
    map_search-none a f = elim (Option-cases (map_search m a i)) [
      | inl e ↦ e
      | inr (n, e) ↦ let (j, q) = map_search-Equal a n e in absurd (f n j q)
    ]

    abbrev pub Found : A → Option A → Type 0
    Found a none = NoEqual k.cmp a m.nodes
    Found a (some x) = (n : Node A) × In n m.nodes × (n.item ≡ x) × (k.cmp a x ≡ Ordering.eq)

    -- On a well-formed map, at an index that it has, `map_find` answers an item of the map that
    -- compares equal, and null only if there is none.
    pub map_find-Found : (a : A) → Found a (map_find m a i)
    unfolding map_find
    map_find-Found a = elim (Option-cases (map_search m a i)) [
      | inl e ↦ rw e (λ n j q. cc (e, map_search_of_In a n j q))
      | inr (n, e) ↦ let (j, q) = map_search-Equal a n e in rw e (n, j, refl, q)
    ]

  -- Two maps whose nodes agree on what compares equal to `a`, give the same answer.
  pub map_search_same :
      (m m' : Map A) (i : ℕ) (k k' : Index A)
      → IsMap m
      → IsMap m'
      → get_elem? m.key i ≡ some k
      → get_elem? m'.key i ≡ some k'
      → k'.cmp ≡ k.cmp
      → (a : A) → ((n : Node A) → k.cmp a n.item ≡ Ordering.eq → In n m.nodes → In n m'.nodes)
      → ((n : Node A) → k.cmp a n.item ≡ Ordering.eq → In n m'.nodes → In n m.nodes)
      → map_search m' a i ≡ map_search m a i
  map_search_same m m' i k k' v v' at at' same a f g = elim (Option-cases (map_search m a i)) [
    | inl e ↦
        map_search-none m' i k' v' at' a (λ n j q.
          let r : k.cmp a n.item ≡ Ordering.eq = rw (← same) q in
          cc (e, map_search_of_In m i k v at a n (g n r j) r))
        ∙ sym e
    | inr (n, e) ↦
        let (j, q) = map_search-Equal m i k v at a n e in
        map_search_of_In m' i k' v' at' a n (f n q j) (rw same q) ∙ sym e
  ]
