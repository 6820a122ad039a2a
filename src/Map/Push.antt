-- ===== src/Map/Push.antt =====
-- `map_push`, `map_push_back` and `map_find` on a well-formed map.
use sipecho.Common.{
  ℕ, ◌+◌, ◌<◌, Bool, true, false, List, [], ◌∷◌, ◌++◌, map, ◌≡◌, ◌≢◌, inl, inr, refl, ap, some, In,
  arith, length, length-append,
}
use sipecho.Map.{
  Node, Index, Map, Keyed, indexed, exists, failure, map_key, push_node, map_push, map_push_back,
}
use sipecho.Map.Invariant.{AllIndex, Below, Unused, Distinct, IsMap, IsNew, IsTaken}
use sipecho.Map.Keying.{KeyedRight, map_key-KeyedRight, Unused-of_Below}

module _ {A : Type 0} where
  -- The items of a map, from the front to the back.
  abbrev pub items : Map A → List A
  items m = map (λ n. n.item) m.nodes

  -- Two lists of nodes with the same members serve the same trees.
  pub AllIndex-same :
      (ns ns' : List (Node A)) (ks : List (Index A))
      → ((n : Node A) → In n ns → In n ns')
      → ((n : Node A) → In n ns' → In n ns)
      → AllIndex ns ks
      → AllIndex ns' ks
  AllIndex-same ns ns' [] f g h = tt
  AllIndex-same ns ns' (k ∷ ks) f g (v, vs) = (
    record {
      order = v.order;
      sorted = v.sorted;
      sound = λ n i. f n (v.sound n i);
      complete = λ n i. v.complete n (g n i);
    },
    AllIndex-same ns ns' ks f g vs,
  )

  pub Below-suc : (p : ℕ) (ns : List (Node A)) → Below p ns → Below (p + 1) ns
  Below-suc p [] h = tt
  Below-suc p (n ∷ ns) h = (omega arith, Below-suc p ns h.1)

  Below-snoc :
      (p : ℕ) (ns : List (Node A)) (n : Node A)
      → Below p ns
      → n.address < p
      → Below p (ns ++ (n ∷ []))
  Below-snoc p [] n h b = (b, tt)
  Below-snoc p (x ∷ ns) n h b = (h.0, Below-snoc p ns n h.1 b)

  Unused-snoc :
      (p : ℕ) (ns : List (Node A)) (n : Node A)
      → Unused p ns
      → n.address ≢ p
      → Unused p (ns ++ (n ∷ []))
  Unused-snoc p [] n h b = (b, tt)
  Unused-snoc p (x ∷ ns) n h b = (h.0, Unused-snoc p ns n h.1 b)

  Distinct-snoc :
      (p : ℕ) (ns : List (Node A)) (n : Node A)
      → Below p ns
      → p ≡ n.address
      → Distinct ns
      → Distinct (ns ++ (n ∷ []))
  Distinct-snoc p [] n b e d = (tt, tt)
  Distinct-snoc p (x ∷ ns) n b e d =
      (Unused-snoc x.address ns n d.0 (omega arith), Distinct-snoc p ns n b.1 e d.1)

  In-snoc : (ns : List (Node A)) (n m : Node A) → In m (n ∷ ns) → In m (ns ++ (n ∷ []))
  In-snoc [] n m h = h
  In-snoc (x ∷ ns) n m (inl e) = inr (In-snoc ns n m (inl e))
  In-snoc (x ∷ ns) n m (inr (inl e)) = inl e
  In-snoc (x ∷ ns) n m (inr (inr h)) = inr (In-snoc ns n m (inr h))

  snoc-In : (ns : List (Node A)) (n m : Node A) → In m (ns ++ (n ∷ [])) → In m (n ∷ ns)
  snoc-In [] n m h = h
  snoc-In (x ∷ ns) n m (inl e) = inr (inl e)
  snoc-In (x ∷ ns) n m (inr h) = ground (arith, snoc-In ns n m h)

  map-snoc :
      (ns : List (Node A)) (n : Node A)
      → map (λ x. x.item) (ns ++ (n ∷ [])) ≡ map (λ x. x.item) ns ++ (n.item ∷ [])
  map-snoc [] n = refl
  map-snoc (x ∷ ns) n = ap (◌∷◌ x.item) (map-snoc ns n)

  -- What a push does, by its answer: with 0 the map is well-formed with the item added, which was
  -- new to every index; with -1 the items are as before, and the item was taken in some index.
  abbrev pub Pushed : Map A → A → List A → Map A × Bool → Type 0
  Pushed m a new (m', true) = IsMap m' × (items m' ≡ new) × IsNew a m.nodes m.key
  Pushed m a new (m', false) = IsMap m' × (items m' ≡ items m) × IsTaken a m.nodes m.key

  push_node-Pushed :
      (m : Map A) (n : Node A) (add : List (Node A) → List (Node A)) (new : List A)
      → IsMap m
      → (AllIndex (n ∷ m.nodes) (map_key n m.key).1 → AllIndex (add m.nodes) (map_key n m.key).1)
      → length (add m.nodes) ≡ length m.nodes + 1
      → Below (m.next + 1) (add m.nodes)
      → Distinct (add m.nodes)
      → map (λ x. x.item) (add m.nodes) ≡ new
      → KeyedRight m.nodes n m.key (map_key n m.key)
      → Pushed m n.item new (push_node m n add (map_key n m.key))
  push_node-Pushed m n add new v grow len below distinct is_new h =
      by_answer (map_key n m.key) grow h
    where
      by_answer :
          (o : Keyed A × List (Index A))
          → (AllIndex (n ∷ m.nodes) o.1 → AllIndex (add m.nodes) o.1)
          → KeyedRight m.nodes n m.key o
          → Pushed m n.item new (push_node m n add o)
      by_answer (indexed, ks) g h = (
        record {
          keyed = g h.0;
          sized = omega (arith, v.sized);
          fresh = below;
          distinct = distinct;
        },
        is_new,
        h.1,
      )
      by_answer (exists x, ks) g h = (
        record {
          keyed = h.0;
          sized = v.sized;
          fresh = Below-suc m.next m.nodes v.fresh;
          distinct = v.distinct;
        },
        refl,
        h.1,
      )
      by_answer (failure, ks) g h = (
        record {
          keyed = h.0;
          sized = v.sized;
          fresh = Below-suc m.next m.nodes v.fresh;
          distinct = v.distinct;
        },
        refl,
        h.1,
      )

  -- `map_push` adds an item at the front of a well-formed map and answers 0, if the item is new to
  -- every index; else it answers -1 and the items stay. The map stays well-formed.
  pub map_push-Pushed :
      (m : Map A) (a : A) → IsMap m → Pushed m a (a ∷ items m) (map_push m (some a))
  unfolding map_push
  map_push-Pushed m a v =
      let n : Node A = record { address = m.next; item = a } in
      push_node-Pushed m n (λ ns. n ∷ ns) (a ∷ items m) v (λ h. h) (omega arith)
        (omega arith, Below-suc m.next m.nodes v.fresh)
        (Unused-of_Below m.next m.nodes v.fresh, v.distinct) refl
        (map_key-KeyedRight m.nodes n m.key (Unused-of_Below m.next m.nodes v.fresh) v.keyed)

  -- `map_push_back` does the same at the back of a well-formed map.
  pub map_push_back-Pushed :
      (m : Map A) (a : A) → IsMap m → Pushed m a (items m ++ (a ∷ [])) (map_push_back m (some a))
  unfolding map_push_back
  map_push_back-Pushed m a v =
      let n : Node A = record { address = m.next; item = a } in
      push_node-Pushed m n (λ ns. ns ++ (n ∷ [])) (items m ++ (a ∷ [])) v
        (AllIndex-same (n ∷ m.nodes) (m.nodes ++ (n ∷ [])) (map_key n m.key).1 (In-snoc m.nodes n)
          (snoc-In m.nodes n))
        (length-append m.nodes (n ∷ []))
        (Below-snoc (m.next + 1) m.nodes n (Below-suc m.next m.nodes v.fresh) (omega arith))
        (Distinct-snoc m.next m.nodes n v.fresh refl v.distinct) (map-snoc m.nodes n)
        (map_key-KeyedRight m.nodes n m.key (Unused-of_Below m.next m.nodes v.fresh) v.keyed)
