-- ===== src/Map/PushFind.antt =====
-- A search after `map_push`: the new item where it compares equal, and what was found before.
use sipecho.Common.{
  ℕ, zero, suc, Bool, true, false, ◌==◌, List, [], ◌∷◌, ◌≡◌, ◌≢◌, inl, inr, refl, ap, Option, some,
  Ordering, In, Bool-cases, get_elem?,
}
use sipecho.Tree.Search.{tsearch2}
use sipecho.Tree.Order.{Ordering-cases}
use sipecho.Map.{
  Node, Index, Map, Keyed, indexed, exists, failure, node_cmp, settle_key, map_key, push_node,
  map_push, map_find,
}
use sipecho.Map.{item_of}
use sipecho.Map.Invariant.{IsMap}
use sipecho.Map.Keying.{searched}
use sipecho.Map.Push.{items, Pushed, map_push-Pushed}
use sipecho.Map.Find.{map_search_of_In, map_search_same}

module _ {A : Type 0} where
  -- An index with this comparison stands at a place of a list of indices.
  abbrev pub HasCmp : List (Index A) → ℕ → (A → A → Ordering) → Type 0
  HasCmp [] i cmp = ⊥
  HasCmp (k ∷ ks) zero cmp = k.cmp ≡ cmp
  HasCmp (k ∷ ks) (suc i) cmp = HasCmp ks i cmp

  pub HasCmp-of_get :
      (ks : List (Index A)) (i : ℕ) (k : Index A) → get_elem? ks i ≡ some k → HasCmp ks i k.cmp
  HasCmp-of_get [] i k e = cc
  HasCmp-of_get (x ∷ ks) zero k e = ap (λ (y : Index A). y.cmp) {x = x} {y = k} (cc)
  HasCmp-of_get (x ∷ ks) (suc i) k e = HasCmp-of_get ks i k e

  get_of_HasCmp :
      (ks : List (Index A)) (i : ℕ) (cmp : A → A → Ordering)
      → HasCmp ks i cmp
      → (k : Index A) × (get_elem? ks i ≡ some k) × (k.cmp ≡ cmp)
  get_of_HasCmp [] i cmp h = absurd h
  get_of_HasCmp (x ∷ ks) zero cmp h = (x, refl, h)
  get_of_HasCmp (x ∷ ks) (suc i) cmp h = get_of_HasCmp ks i cmp h

  settle_key-HasCmp :
      (n : Node A) (k : Index A) (o : Keyed A × List (Index A)) (i : ℕ) (cmp : A → A → Ordering)
      → HasCmp (k ∷ o.1) i cmp
      → HasCmp (settle_key n k o).1 i cmp
  settle_key-HasCmp n k (indexed, ks) i cmp h = h
  settle_key-HasCmp n k (exists x, ks) zero cmp h = h
  settle_key-HasCmp n k (exists x, ks) (suc i) cmp h = h
  settle_key-HasCmp n k (failure, ks) zero cmp h = h
  settle_key-HasCmp n k (failure, ks) (suc i) cmp h = h

  -- `map_key` changes the roots of the indices only.
  pub map_key-HasCmp :
      (n : Node A) (ks : List (Index A)) (i : ℕ) (cmp : A → A → Ordering)
      → HasCmp ks i cmp
      → HasCmp (map_key n ks).1 i cmp
  unfolding map_key
  map_key-HasCmp n [] i cmp h = h
  map_key-HasCmp n (k ∷ ks) zero cmp h =
      elim (Bool-cases ((tsearch2 (node_cmp k.cmp) n k.root).0.address == n.address)) [
        | inl e ↦ rw (e, map_key) (settle_key-HasCmp n (searched n k) (map_key n ks) zero cmp h)
        | inr e ↦ rw (e, map_key) h
      ]
  map_key-HasCmp n (k ∷ ks) (suc i) cmp h =
      elim (Bool-cases ((tsearch2 (node_cmp k.cmp) n k.root).0.address == n.address)) [
        | inl e ↦
            rw (e, map_key)
              (settle_key-HasCmp n (searched n k) (map_key n ks) (suc i) cmp
                (map_key-HasCmp n ks i cmp h))
        | inr e ↦ rw (e, map_key) h
      ]

  -- What a push that answers 0 leaves.
  push_node-true :
      (m : Map A) (n : Node A) (o : Keyed A × List (Index A))
      → (push_node m n (λ ns. n ∷ ns) o).1 ≡ true
      → ((push_node m n (λ ns. n ∷ ns) o).0.nodes ≡ n ∷ m.nodes)
        × ((push_node m n (λ ns. n ∷ ns) o).0.key ≡ o.1)
  push_node-true m n (indexed, ks) h = (refl, refl)
  push_node-true m n (exists x, ks) h = cc
  push_node-true m n (failure, ks) h = cc

  IsMap_of_Pushed :
      (m : Map A) (a : A) (new : List A) (o : Map A × Bool) → Pushed m a new o → IsMap o.0
  IsMap_of_Pushed m a new (m', true) h = h.0
  IsMap_of_Pushed m a new (m', false) h = h.0

  abbrev pub newer : Ordering → A → Option A → Option A
  newer Ordering.eq a old = some a
  newer _ a old = old

  not_first :
      (ns : List (Node A)) (p : ℕ) (x : Node A) (a b : A) (k : Index A)
      → k.cmp b a ≢ Ordering.eq
      → k.cmp b x.item ≡ Ordering.eq
      → In x (record { address = p; item = a } ∷ ns)
      → In x ns
  not_first ns p x a b k other q (inl e) = absurd (other (rw (ap (λ (y : Node A). y.item) e) at q))
  not_first ns p x a b k other q (inr j) = j

  -- A search by an index in the map that a push on a well-formed map leaves, when the push answers
  -- 0: the new item where it compares equal to what is looked for, and else what the search found
  -- before.
  pub map_find-push :
      (m : Map A) (a b : A) (i : ℕ) (k : Index A)
      → IsMap m
      → get_elem? m.key i ≡ some k
      → (map_push m (some a)).1 ≡ true
      → map_find (map_push m (some a)).0 b i ≡ newer (k.cmp b a) a (map_find m b i)
  unfolding map_push map_find
  map_find-push m a b i k v at_i pushed =
      let n : Node A = record { address = m.next; item = a } in
      let m' = (map_push m (some a)).0 in
      let v' = IsMap_of_Pushed m a (a ∷ items m) (map_push m (some a)) (map_push-Pushed m a v) in
      let shape = push_node-true m n (map_key n m.key) pushed in
      let (k', at', same) =
        get_of_HasCmp m'.key i k.cmp
          (rw shape.1 (map_key-HasCmp n m.key i k.cmp (HasCmp-of_get m.key i k at_i))) in
      let unchanged = λ (other : k.cmp b a ≢ Ordering.eq). ap item_of (
        map_search_same m m' i k k' v v' at_i at' same b (λ x q j. rw shape.0 (inr j))
          (λ x q j. not_first m.nodes m.next x a b k other q (rw shape.0 at j))) in
      elim (Ordering-cases (k.cmp b a)) [
        | inl e ↦ rw (e, newer) (unchanged (λ q. cc))
        | inr (inl e) ↦
            rw (e, newer)
              (ap item_of (map_search_of_In m' i k' v' at' b n (rw shape.0 (inl refl)) (rw same e)))
        | inr (inr e) ↦ rw (e, newer) (unchanged (λ q. cc))
      ]
