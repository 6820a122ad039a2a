-- ===== src/Map/Orphan.antt =====
-- `map_push_find` where the copy of a new item fails: the node is freed, and the search trees still
-- hold it.
use sipecho.Common.{List, [], ◌∷◌, ◌≡◌, In, Option, none, some, inl, inr, refl, arith, get_elem?}
use sipecho.Map.{Node, Index, Map, Keyed, indexed, exists, failure, map_key}
use sipecho.Tree.Spec.{inorder}
use sipecho.Map.Upsert.{Copy, PushFound, Flag, push_found, map_push_find}
use sipecho.Map.Invariant.{AllIndex, IsMap, IsNew, IsTaken}
use sipecho.Map.PushFind.{HasCmp, HasCmp-of_get, map_key-HasCmp}
use sipecho.Map.Keying.{KeyedRight, map_key-KeyedRight, Below-In, Unused-of_Below}

module _ {A : Type 0} where
  -- Every tree holds the node.
  abbrev pub HeldByAll : Node A → List (Index A) → Type 0
  HeldByAll n [] = Unit
  HeldByAll n (k ∷ ks) = In n (inorder k.root) × HeldByAll n ks

  HeldByAll-of_AllIndex :
      (nodes : List (Node A)) (n : Node A) (ks : List (Index A))
      → AllIndex (n ∷ nodes) ks
      → HeldByAll n ks
  HeldByAll-of_AllIndex nodes n [] v = tt
  HeldByAll-of_AllIndex nodes n (k ∷ ks) v =
      (v.0.complete n (inl refl), HeldByAll-of_AllIndex nodes n ks v.1)

  -- A node that a tree holds, and that is not in the list, is no node of a well-formed map.
  hanging :
      (nodes : List (Node A)) (n : Node A) (k : Index A) (ks : List (Index A))
      → ¬ In n nodes
      → HeldByAll n (k ∷ ks)
      → AllIndex nodes (k ∷ ks)
      → ⊥
  hanging nodes n k ks b h w = b (w.0.sound n h.0)

  not-In : (m : Map A) (a : A) → IsMap m → ¬ In (record { address = m.next; item = a }) m.nodes
  not-In m a v i = absurd (omega (arith, Below-In m.next m.nodes _ v.fresh i))

  -- What is left where the copy fails: a null answer, every tree with a node that is not in the
  -- list, which stays as it was, and the size as it was.
  abbrev pub Orphaned : Map A → A → PushFound A → Type 0
  Orphaned m a o =
      (o.answer ≡ none)
      × HeldByAll (record { address = m.next; item = a }) o.after.key
      × (o.after.nodes ≡ m.nodes)
      × (¬ In (record { address = m.next; item = a }) o.after.nodes)
      × (o.after.size ≡ m.size)
      × (¬ IsMap o.after)

  new_or_taken :
      (a : A) (nodes : List (Node A)) (ks : List (Index A))
      → IsNew a nodes ks
      → IsTaken a nodes ks
      → ⊥
  new_or_taken a nodes [] h g = g
  new_or_taken a nodes (k ∷ ks) h (inl (x, i, e)) = h.0 x i e
  new_or_taken a nodes (k ∷ ks) h (inr g) = new_or_taken a nodes ks h.1 g

  -- Where `cpy` answers null for an item that is new to a well-formed map with an index,
  -- `map_push_find` answers null and leaves the list and the size as they were, but every tree
  -- holds the node that it has allocated and freed, which is not in the list: the map is not
  -- well-formed.
  pub map_push_find-orphan :
      (m : Map A) (a : A) (c : Copy A) (flag : Option Flag) (k : Index A)
      → IsMap m
      → get_elem? m.key 0 ≡ some k
      → IsNew a m.nodes m.key
      → c.fresh a ≡ none
      → Orphaned m a (map_push_find m (some a) (some c) flag)
  unfolding map_push_find
  map_push_find-orphan m a c flag k v at_0 new fails =
      by_answer (map_key n m.key) (map_key-HasCmp n m.key 0 k.cmp (HasCmp-of_get m.key 0 k at_0))
        (map_key-KeyedRight m.nodes n m.key (Unused-of_Below m.next m.nodes v.fresh) v.keyed)
    where
      n : Node A
      n = record { address = m.next; item = a }

      by_answer :
          (o : Keyed A × List (Index A))
          → HasCmp o.1 0 k.cmp
          → KeyedRight m.nodes n m.key o
          → Orphaned m a (push_found m n a (some c) flag o)
      by_answer (indexed, []) h g = absurd h
      by_answer (indexed, k' ∷ ks) h g =
          let held = HeldByAll-of_AllIndex m.nodes n (k' ∷ ks) g.0 in
          rw fails (
            refl,
            held,
            refl,
            not-In m a v,
            refl,
            λ w. hanging m.nodes n k' ks (not-In m a v) held w.keyed,
          )
      by_answer (exists x, ks) h g = absurd (new_or_taken a m.nodes m.key new g.1)
      by_answer (failure, ks) h g = absurd (new_or_taken a m.nodes m.key new g.1)
