-- ===== src/Map/Keying.antt =====
-- `map_key`: a node gets into all search trees of a map, or into none of them.
use sipecho.Common.{
  ℕ, ◌<◌, List, [], ◌∷◌, ◌≡◌, ◌⊎◌, ◌∙◌, inl, inr, ap, none, some, Ordering, In, Option-cases,
  ==_refl, ne_eq, sym, ◌≢◌, arith, refl, Bool-cases, ◌==◌,
}
use sipecho.Tree.Spec.{IsOrder, inorder, find, insert, erase}
use sipecho.Tree.Search.{tsearch2}
use sipecho.Tree.Refine.{tsearch2-insert, tsearch2-or_else, tfind2-find, or_else}
use sipecho.Tree.Delete.Keys.{tdelete2-erase}
use sipecho.Tree.Sorted.{insert-IsSorted, find-In, find_of_In}
use sipecho.Tree.Members.{insert-In, In-insert, In-insert_new, erase-insert, insert_found}
use sipecho.Map.{
  Node, Index, Keyed, indexed, exists, failure, node_cmp, map_key, remove_leaf, settle_key,
}
use sipecho.Map.Invariant.{IsIndex, AllIndex, cmps_of, Below, Unused, NoEqual, IsNew, IsTaken}

module _ {A : Type 0} where
  pub node-IsOrder : {cmp : A → A → Ordering} → IsOrder cmp → IsOrder (node_cmp cmp)
  node-IsOrder o = record {
    flip = λ a b. o.flip a.item b.item;
    same = λ a b c. o.same a.item b.item c.item;
    lt_trans = λ a b c. o.lt_trans a.item b.item c.item;
  }

  abbrev pub searched : Node A → Index A → Index A
  searched n k = record k { root = (tsearch2 (node_cmp k.cmp) n k.root).1 }

  module _ (nodes : List (Node A)) (n : Node A) (k : Index A) (v : IsIndex nodes k) where
    inorder-searched : inorder (searched n k).root ≡ insert (node_cmp k.cmp) n (inorder k.root)
    inorder-searched = tsearch2-insert (node-IsOrder v.order) n k.root v.sorted

    found-eq :
        (tsearch2 (node_cmp k.cmp) n k.root).0
        ≡ or_else (find (node_cmp k.cmp) n (inorder k.root)) n
    found-eq =
        tsearch2-or_else (node-IsOrder v.order) n k.root
        ∙ ap (λ o. or_else o n) (tfind2-find (node-IsOrder v.order) n k.root v.sorted)

    -- A search that finds nothing: no node of the list is equal.
    NoEqual-of_find : find (node_cmp k.cmp) n (inorder k.root) ≡ none → NoEqual k.cmp n.item nodes
    NoEqual-of_find e m i q =
        cc (e, find_of_In (node-IsOrder v.order) n m (inorder k.root) v.sorted (v.complete m i) q)

    Equal_of_find :
        (x : Node A)
        → find (node_cmp k.cmp) n (inorder k.root) ≡ some x
        → In x nodes × (k.cmp n.item x.item ≡ Ordering.eq)
    Equal_of_find x e =
        let (i, q) = find-In (node_cmp k.cmp) n x (inorder k.root) e in (v.sound x i, q)

    -- The tree with the new node in it, where no node is equal.
    IsIndex-insert :
        find (node_cmp k.cmp) n (inorder k.root) ≡ none → IsIndex (n ∷ nodes) (searched n k)
    IsIndex-insert e = record {
      order = v.order;
      sorted =
          rw inorder-searched (insert-IsSorted (node-IsOrder v.order) n (inorder k.root) v.sorted);
      sound = λ m i.
          widen m (insert-In (node_cmp k.cmp) n m (inorder k.root) (rw inorder-searched at i));
      complete = λ m i. rw inorder-searched (holds m i);
    }
      where
        widen : (m : Node A) → (m ≡ n) ⊎ In m (inorder k.root) → (m ≡ n) ⊎ In m nodes
        widen m (inl p) = inl p
        widen m (inr i) = inr (v.sound m i)

        holds :
            (m : Node A) → (m ≡ n) ⊎ In m nodes → In m (insert (node_cmp k.cmp) n (inorder k.root))
        holds m (inl p) = rw p (In-insert_new (node_cmp k.cmp) n (inorder k.root) e)
        holds m (inr i) = In-insert (node_cmp k.cmp) n m (inorder k.root) (v.complete m i)

    -- The tree after a search that has found an equal node.
    IsIndex-found :
        (x : Node A)
        → find (node_cmp k.cmp) n (inorder k.root) ≡ some x
        → IsIndex nodes (searched n k)
    IsIndex-found x e =
        let same =
          inorder-searched ∙ insert_found (node-IsOrder v.order) n x (inorder k.root) v.sorted e in
        record {
          order = v.order;
          sorted = rw same v.sorted;
          sound = λ m i. v.sound m (rw same at i);
          complete = λ m i. rw same (v.complete m i);
        }

    -- The tree after an insertion that a later index has made undone.
    IsIndex-undone :
        find (node_cmp k.cmp) n (inorder k.root) ≡ none
        → IsIndex nodes (remove_leaf n (searched n k))
    IsIndex-undone e =
        let same =
          tdelete2-erase (node-IsOrder v.order) n (searched n k).root (IsIndex-insert e).sorted
          ∙ ap (erase (node_cmp k.cmp) n) inorder-searched
          ∙ erase-insert (node-IsOrder v.order) n (inorder k.root) e in
        record {
          order = v.order;
          sorted = rw same v.sorted;
          sound = λ m i. v.sound m (rw same at i);
          complete = λ m i. rw same (v.complete m i);
        }

  -- `map_key` replaces no comparison.
  pub map_key-cmps : (n : Node A) (ks : List (Index A)) → cmps_of (map_key n ks).1 ≡ cmps_of ks
  unfolding map_key
  map_key-cmps n [] = refl
  map_key-cmps n (k ∷ ks) =
      elim (Bool-cases ((tsearch2 (node_cmp k.cmp) n k.root).0.address == n.address)) [
        | inl e ↦ rw e (settled_after (map_key n ks) (map_key-cmps n ks))
        | inr e ↦ rw e refl
      ]
    where
      settled_after :
          (o : Keyed A × List (Index A))
          → cmps_of o.1 ≡ cmps_of ks
          → cmps_of (settle_key n (searched n k) o).1 ≡ cmps_of (k ∷ ks)
      settled_after (indexed, ks') h = ap (◌∷◌ k.cmp) h
      settled_after (exists x, ks') h = ap (◌∷◌ k.cmp) h
      settled_after (failure, ks') h = ap (◌∷◌ k.cmp) h

  -- By the first of the indices, the item is equal to this one.
  abbrev pub EqualAtFirst : A → A → List (Index A) → Type 0
  EqualAtFirst a b [] = ⊥
  EqualAtFirst a b (k ∷ ks) = k.cmp a b ≡ Ordering.eq

  -- No node has an equal item by the first of the indices, but one has by a later one.
  abbrev pub TakenPastFirst : A → List (Node A) → List (Index A) → Type 0
  TakenPastFirst a nodes [] = ⊥
  TakenPastFirst a nodes (k ∷ ks) = NoEqual k.cmp a nodes × IsTaken a nodes ks

  -- What `map_key` leaves, for each of its answers.
  abbrev pub KeyedRight :
      List (Node A) → Node A → List (Index A) → Keyed A × List (Index A) → Type 0
  KeyedRight nodes n ks (indexed, ks') = AllIndex (n ∷ nodes) ks' × IsNew n.item nodes ks
  KeyedRight nodes n ks (exists x, ks') =
      AllIndex nodes ks' × IsTaken n.item nodes ks × In x nodes × EqualAtFirst n.item x.item ks
  KeyedRight nodes n ks (failure, ks') =
      AllIndex nodes ks' × IsTaken n.item nodes ks × TakenPastFirst n.item nodes ks

  settle_key-KeyedRight :
      (nodes : List (Node A)) (n : Node A) (k : Index A) (ks : List (Index A))
      → IsIndex nodes k
      → find (node_cmp k.cmp) n (inorder k.root) ≡ none
      → (o : Keyed A × List (Index A)) → KeyedRight nodes n ks o
      → KeyedRight nodes n (k ∷ ks) (settle_key n (searched n k) o)
  settle_key-KeyedRight nodes n k ks v e (indexed, ks') h =
      ((IsIndex-insert nodes n k v e, h.0), (NoEqual-of_find nodes n k v e, h.1))
  settle_key-KeyedRight nodes n k ks v e (exists x, ks') h =
      ((IsIndex-undone nodes n k v e, h.0), inr h.1, (NoEqual-of_find nodes n k v e, h.1))
  settle_key-KeyedRight nodes n k ks v e (failure, ks') h =
      ((IsIndex-undone nodes n k v e, h.0), inr h.1, (NoEqual-of_find nodes n k v e, h.1))

  pub Below-In : (p : ℕ) (ns : List (Node A)) (x : Node A) → Below p ns → In x ns → x.address < p
  Below-In p [] x h i = absurd i
  Below-In p (n ∷ ns) x h (inl e) = rw e h.0
  Below-In p (n ∷ ns) x h (inr i) = Below-In p ns x h.1 i

  pub Unused-In : (p : ℕ) (ns : List (Node A)) (x : Node A) → Unused p ns → In x ns → x.address ≢ p
  Unused-In p [] x u i = absurd i
  Unused-In p (n ∷ ns) x u (inl e) = rw e u.0
  Unused-In p (n ∷ ns) x u (inr i) = Unused-In p ns x u.1 i

  pub Unused-of_Below : (p : ℕ) (ns : List (Node A)) → Below p ns → Unused p ns
  Unused-of_Below p [] h = tt
  Unused-of_Below p (n ∷ ns) h = (omega arith, Unused-of_Below p ns h.1)

  -- A node that is not in the list gets into every tree of a map, if no node has an equal key in
  -- any of them. Else every tree holds the nodes it held and some node has an equal key: the node
  -- that is answered, which is in the list, by the first index, or, where none is answered, a node
  -- by a later index and none by the first.
  pub map_key-KeyedRight :
      (nodes : List (Node A)) (n : Node A) (ks : List (Index A))
      → Unused n.address nodes
      → AllIndex nodes ks
      → KeyedRight nodes n ks (map_key n ks)
  unfolding map_key
  map_key-KeyedRight nodes n [] b v = (tt, tt)
  map_key-KeyedRight nodes n (k ∷ ks) b (v, vs) =
      elim (Option-cases (find (node_cmp k.cmp) n (inorder k.root))) [
        | inl e ↦
            rw (found-eq nodes n k v ∙ ap (λ o. or_else o n) e, ==_refl n.address, map_key)
              (settle_key-KeyedRight nodes n k ks v e (map_key n ks)
                (map_key-KeyedRight nodes n ks b vs))
        | inr (x, e) ↦
            let (i, q) = Equal_of_find nodes n k v x e in
            rw
              (
                found-eq nodes n k v ∙ ap (λ o. or_else o n) e,
                ne_eq x.address n.address (λ e. Unused-In n.address nodes x b i (sym e)),
                map_key,
              )
              ((IsIndex-found nodes n k v x e, vs), inl (x, i, q), i, q)
      ]
