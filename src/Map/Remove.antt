-- ===== src/Map/Remove.antt =====
-- `map_remove`, and the operations that remove a node by it, on a well-formed map.
use sipecho.Common.{
  ℕ, ◌+◌, false, ◌==◌, ==_iff, List, [], ◌∷◌, map, ◌≡◌, ◌≢◌, ◌↔◌, ◌∙◌, inl, inr, sym, ap, In, arith,
  Bool-cases, neither, length,
}
use sipecho.Tree.Spec.{inorder}
use sipecho.Tree.Delete.Keys.{tdelete2-erase}
use sipecho.Tree.Sorted.{erase-IsSorted}
use sipecho.Tree.Members.{erase-In, In-erase, erase-ne, eq_of_In, order_refl}
use sipecho.Map.{Node, Index, Map, node_cmp, remove_leaf}
use sipecho.Map.Update.{unlink, map_remove}
use sipecho.Map.Keying.{Unused-In}
use sipecho.Map.Invariant.{IsIndex, AllIndex, Below, Unused, Distinct, IsMap}
use sipecho.Map.Keying.{node-IsOrder}

module _ {A : Type 0} where
  -- Nodes of the list with one address are one node.
  address_injective :
      (ns : List (Node A)) (x y : Node A)
      → Distinct ns
      → In x ns
      → In y ns
      → x.address ≡ y.address
      → x ≡ y
  address_injective [] x y d i j e = absurd i
  address_injective (n ∷ ns) x y d (inl p) (inl q) e = p ∙ sym q
  address_injective (n ∷ ns) x y d (inl p) (inr j) e = absurd (Unused-In n.address ns y d.0 j (cc))
  address_injective (n ∷ ns) x y d (inr i) (inl q) e = absurd (Unused-In n.address ns x d.0 i (cc))
  address_injective (n ∷ ns) x y d (inr i) (inr j) e = address_injective ns x y d.1 i j e

  pub unlink-In : (p : ℕ) (ns : List (Node A)) (x : Node A) → In x (unlink p ns) → In x ns
  unlink-In p [] x h = h
  unlink-In p (n ∷ ns) x h = ground (arith, unlink-In p ns x)

  pub In-unlink :
      (p : ℕ) (ns : List (Node A)) (x : Node A) → x.address ≢ p → In x ns → In x (unlink p ns)
  In-unlink p [] x a h = absurd h
  In-unlink p (n ∷ ns) x a (inl e) = elim (Bool-cases (n.address == p)) [
    | inl c ↦ absurd (a (cc ((==_iff n.address p).0 c)))
    | inr c ↦ rw (c, unlink) (inl e)
  ]
  In-unlink p (n ∷ ns) x a (inr i) = ground (arith, In-unlink p ns x a i)

  unlink_ne :
      (p : ℕ) (ns : List (Node A)) (x : Node A) → Distinct ns → In x (unlink p ns) → x.address ≢ p
  unlink_ne p [] x d h e = absurd h
  unlink_ne p (n ∷ ns) x d h e =
      let later = λ (i : In x (unlink p ns)). unlink_ne p ns x d.1 i e in
      elim (Bool-cases (n.address == p)) [
        | inl c ↦
            Unused-In n.address ns x d.0 (rw (c, unlink) at h) (e ∙ sym ((==_iff n.address p).0 c))
        | inr c ↦
            neither (λ q. not_at c (sym (ap (λ (y : Node A). y.address) q) ∙ e)) later
              (rw (c, unlink) at h)
      ]
    where
      not_at : (n.address == p) ≡ false → n.address ≡ p → ⊥
      not_at c q = ground arith

  Below-unlink : (b p : ℕ) (ns : List (Node A)) → Below b ns → Below b (unlink p ns)
  Below-unlink b p [] h = tt
  Below-unlink b p (n ∷ ns) h = ground (arith, Below-unlink b p ns h.1)

  Unused-unlink : (q p : ℕ) (ns : List (Node A)) → Unused q ns → Unused q (unlink p ns)
  Unused-unlink q p [] h = tt
  Unused-unlink q p (n ∷ ns) h = ground (arith, Unused-unlink q p ns h.1)

  Distinct-unlink : (p : ℕ) (ns : List (Node A)) → Distinct ns → Distinct (unlink p ns)
  Distinct-unlink p [] h = tt
  Distinct-unlink p (n ∷ ns) h =
      ground (arith, Distinct-unlink p ns h.1, Unused-unlink n.address p ns h.0)

  pub length-unlink :
      (ns : List (Node A)) (x : Node A) → In x ns → length (unlink x.address ns) + 1 ≡ length ns
  length-unlink [] x h = absurd h
  length-unlink (n ∷ ns) x (inl e) = ground arith
  length-unlink (n ∷ ns) x (inr i) = ground (arith, length-unlink ns x i)

  -- The trees without a node of the list.
  IsIndex-remove :
      (nodes : List (Node A)) (n : Node A) (k : Index A)
      → In n nodes
      → Distinct nodes
      → IsIndex nodes k
      → IsIndex (unlink n.address nodes) (remove_leaf n k)
  IsIndex-remove nodes n k here d v =
      let o = node-IsOrder v.order in
      let same = tdelete2-erase o n k.root v.sorted in
      record {
        order = v.order;
        sorted = rw same (erase-IsSorted (node_cmp k.cmp) n (inorder k.root) v.sorted);
        sound = λ x i.
            let j = rw same at i in
            In-unlink n.address nodes x
              (λ e. erase-ne o n x (inorder k.root) v.sorted j (
                rw
                  (address_injective nodes x n d
                    (v.sound x (erase-In (node_cmp k.cmp) n x (inorder k.root) j)) here e)
                  (order_refl o n)))
              (v.sound x (erase-In (node_cmp k.cmp) n x (inorder k.root) j));
        complete = λ x i.
            let j = unlink-In n.address nodes x i in
            rw same (
              In-erase (node_cmp k.cmp) n x (inorder k.root)
                (λ e. unlink_ne n.address nodes x d i (
                  ap (λ (y : Node A). y.address)
                    (sym (
                      eq_of_In o n x (inorder k.root) v.sorted (v.complete n here) (v.complete x j)
                        e))))
                (v.complete x j));
      }

  AllIndex-remove :
      (nodes : List (Node A)) (n : Node A) (ks : List (Index A))
      → In n nodes
      → Distinct nodes
      → AllIndex nodes ks
      → AllIndex (unlink n.address nodes) (map (remove_leaf n) ks)
  AllIndex-remove nodes n [] here d v = tt
  AllIndex-remove nodes n (k ∷ ks) here d (v, vs) =
      (IsIndex-remove nodes n k here d v, AllIndex-remove nodes n ks here d vs)

  -- `map_remove` at a node of a well-formed map leaves a well-formed map: all trees lose the node.
  pub map_remove-IsMap :
      (m : Map A) (n : Node A) → IsMap m → In n m.nodes → IsMap (map_remove m n).0
  unfolding map_remove
  map_remove-IsMap m n v here = record {
    keyed = AllIndex-remove m.nodes n m.key here v.distinct v.keyed;
    sized = omega (arith, length-unlink m.nodes n here, v.sized);
    fresh = Below-unlink m.next n.address m.nodes v.fresh;
    distinct = Distinct-unlink n.address m.nodes v.distinct;
  }

  -- The nodes after `map_remove` at a node of a well-formed map are those before, less that node.
  pub map_remove-In :
      (m : Map A) (n x : Node A)
      → IsMap m
      → In n m.nodes
      → In x (map_remove m n).0.nodes ↔ (In x m.nodes × (x ≢ n))
  unfolding map_remove
  map_remove-In m n x v here = (
    λ i. (unlink-In n.address m.nodes x i, λ e. unlink_ne n.address m.nodes x v.distinct i (rw e)),
    λ h.
        In-unlink n.address m.nodes x
          (λ e. h.1 (address_injective m.nodes x n v.distinct h.0 here e)) h.0,
  )
