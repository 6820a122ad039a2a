-- ===== src/Map/Take.antt =====
-- `map_get`, `map_pop`, `map_pop_back` and `map_erase`: what they take out of a map.
use sipecho.Common.{
  ℕ, ==_refl, ne_eq, append-nil, List, [], ◌∷◌, ◌++◌, map, ◌≡◌, ◌≢◌, inl, inr, refl, ap, ◌∙◌,
  Option, none, some, In, length, get_elem?,
}
use sipecho.Map.{Node, Index, Map, remove_leaf, last, map_front, map_back, map_search, item_of}
use sipecho.Map.Update.{
  unlink, map_remove, remove_some, first, map_pop, map_pop_back, map_get, given, remove_while,
  map_erase,
}
use sipecho.Tree.{Tree, nil, node}
use sipecho.Tree.Spec.{inorder}
use sipecho.Map.Invariant.{AllIndex, cmps_of, Distinct, IsMap}
use sipecho.Map.Push.{items}
use sipecho.Map.Find.{map_search-Equal}
use sipecho.Map.Keying.{Unused-In}
use sipecho.Map.Remove.{map_remove-IsMap, map_remove-In}

module _ {A : Type 0} where
  -- No index has a node in its tree.
  abbrev pub AllBare : List (Index A) → Type 0
  AllBare [] = Unit
  AllBare (k ∷ ks) = (k.root ≡ nil) × AllBare ks

  In-middle : (before after : List (Node A)) (n : Node A) → In n (before ++ (n ∷ after))
  In-middle [] after n = inl refl
  In-middle (x ∷ before) after n = inr (In-middle before after n)

  nil-of_inorder : (t : Tree (Node A)) → ((n : Node A) → ¬ In n (inorder t)) → t ≡ nil
  nil-of_inorder nil h = refl
  nil-of_inorder (node red l x r) h = absurd (h x (In-middle (inorder l) (inorder r) x))

  AllBare-of_AllIndex : (ks : List (Index A)) → AllIndex [] ks → AllBare ks
  AllBare-of_AllIndex [] v = tt
  AllBare-of_AllIndex (k ∷ ks) (v, vs) =
      (nil-of_inorder k.root (λ n i. v.sound n i), AllBare-of_AllIndex ks vs)

  remove_leaf-cmps :
      (n : Node A) (ks : List (Index A)) → cmps_of (map (remove_leaf n) ks) ≡ cmps_of ks
  remove_leaf-cmps n [] = refl
  remove_leaf-cmps n (k ∷ ks) = ap (◌∷◌ k.cmp) (remove_leaf-cmps n ks)

  remove_while-first :
      (ns : List (Node A)) (m : Map A)
      → m.nodes ≡ ns
      → IsMap m
      → IsMap (remove_while (length ns) first m).0
        × ((remove_while (length ns) first m).0.nodes ≡ [])
        × (cmps_of (remove_while (length ns) first m).0.key ≡ cmps_of m.key)
        × ((remove_while (length ns) first m).1 ≡ map (λ n. n.item) ns)
  unfolding remove_while map_remove
  remove_while-first [] m e v = (v, e, refl, refl)
  remove_while-first (n ∷ ns) m e v =
      let m' : Map A = (map_remove m n).0 in
      let shorter : m'.nodes ≡ ns = rw (e, ==_refl n.address, unlink) refl in
      let held : In n m.nodes = rw e (inl refl) in
      let h = remove_while-first ns m' shorter (map_remove-IsMap m n v held) in
      rw (e, remove_while) (h.0, h.1, h.2 ∙ remove_leaf-cmps n m.key, ap (◌∷◌ n.item) h.3)

  -- What `map_erase` leaves: a well-formed map without nodes, of size 0, with the same indices,
  -- all of whose trees are empty, and the items that `__free` was given, all of them from the front to the back.
  abbrev pub Erased : Map A → Map A × List A → Type 0
  Erased m (m', freed) =
      IsMap m'
      × (m'.nodes ≡ [])
      × (m'.size ≡ 0)
      × AllBare m'.key
      × (cmps_of m'.key ≡ cmps_of m.key)
      × (freed ≡ items m)

  -- `map_erase` empties a well-formed map, its list and every tree, sets the size to 0, and gives
  -- `__free` every item, from the front to the back; the map stays well-formed.
  pub map_erase-items : (m : Map A) → IsMap m → Erased m (map_erase m)
  unfolding map_erase
  map_erase-items m v =
      let h = remove_while-first m.nodes m refl v in
      let m' : Map A = (remove_while (length m.nodes) first m).0 in
      (h.0, h.1, rw h.1 at h.0.sized, AllBare-of_AllIndex m'.key (rw h.1 at h.0.keyed), h.2, h.3)

  -- What a removal leaves, by its answer: a null pointer and the same map, or an item of the map,
  -- which is well-formed without its node.
  abbrev pub Taken : Map A → Map A × Option A → Type 0
  Taken m (m', none) = m' ≡ m
  Taken m (m', some x) =
      IsMap m'
      × ((n : Node A) × In n m.nodes
          × (n.item ≡ x)
          × ((y : Node A) → In y m'.nodes → In y m.nodes × (y ≢ n))
          × ((y : Node A) → In y m.nodes → y ≢ n → In y m'.nodes))

  pub remove_some-Taken :
      (m : Map A) (o : Option (Node A))
      → IsMap m
      → ((n : Node A) → o ≡ some n → In n m.nodes)
      → Taken m (remove_some m o)
  unfolding map_remove
  remove_some-Taken m none v h = refl
  remove_some-Taken m (some n) v h = (
    map_remove-IsMap m n v (h n refl),
    (
      n,
      h n refl,
      refl,
      (λ y i. (map_remove-In m n y v (h n refl)).0 i),
      (λ y i ne. (map_remove-In m n y v (h n refl)).1 (i, ne)),
    ),
  )

  first-In : (ns : List (Node A)) (n : Node A) → first ns ≡ some n → In n ns
  first-In [] n e = cc
  first-In (x ∷ ns) n e = inl (cc)

  pop_split :
      (ns : List (Node A)) (m : Map A)
      → m.nodes ≡ ns
      → (map (λ n. n.item) ns ≡ given (map_pop m).1 ++ items (map_pop m).0)
        × ((map_pop m).1 ≡ map_front m)
  unfolding map_pop map_remove map_front
  pop_split [] m e = rw (e, remove_some) (rw e (refl, refl))
  pop_split (n ∷ ns) m e = rw e (rw (==_refl n.address) (refl, refl))

  -- On a well-formed map, `map_pop` answers the item that `map_front` answers, null on an empty
  -- map; it leaves a well-formed map with the other items in the order they had.
  pub map_pop-front :
      (m : Map A)
      → IsMap m
      → Taken m (map_pop m)
        × (items m ≡ given (map_pop m).1 ++ items (map_pop m).0)
        × ((map_pop m).1 ≡ map_front m)
  unfolding map_pop
  map_pop-front m v =
      let (kept, front) = pop_split m.nodes m refl in
      (remove_some-Taken m (first m.nodes) v (first-In m.nodes), kept, front)

  pub last-In : (ns : List (Node A)) (n : Node A) → last ns ≡ some n → In n ns
  last-In [] n e = cc
  last-In (x ∷ []) n e = inl (cc)
  last-In (x ∷ y ∷ ns) n e = inr (last-In (y ∷ ns) n e)

  pub unlink-last :
      (ns : List (Node A)) (n : Node A)
      → Distinct ns
      → last ns ≡ some n
      → map (λ x. x.item) ns ≡ map (λ x. x.item) (unlink n.address ns) ++ (n.item ∷ [])
  unlink-last [] n d e = cc
  unlink-last (x ∷ []) n d e =
      let same : x ≡ n = cc in rw (← same) (rw (==_refl x.address, unlink) refl)
  unlink-last (x ∷ y ∷ ns) n d e =
      rw (ne_eq x.address n.address (Unused-In x.address (y ∷ ns) n d.0 (last-In (y ∷ ns) n e)))
        (ap (◌∷◌ x.item) (unlink-last (y ∷ ns) n d.1 e))

  pop_back_split :
      (m : Map A) (o : Option (Node A))
      → last m.nodes ≡ o
      → Distinct m.nodes
      → (items m ≡ items (remove_some m o).0 ++ given (remove_some m o).1)
        × ((remove_some m o).1 ≡ item_of o)
  unfolding map_remove
  pop_back_split m none e d = (simp append-nil, refl)
  pop_back_split m (some n) e d = (unlink-last m.nodes n d e, refl)

  -- On a well-formed map, `map_pop_back` answers the item that `map_back` answers, null on an empty
  -- map; it leaves a well-formed map with the other items in the order they had.
  pub map_pop_back-back :
      (m : Map A)
      → IsMap m
      → Taken m (map_pop_back m)
        × (items m ≡ items (map_pop_back m).0 ++ given (map_pop_back m).1)
        × ((map_pop_back m).1 ≡ map_back m)
  unfolding map_pop_back map_back
  map_pop_back-back m v =
      let (kept, back) = pop_back_split m (last m.nodes) refl v.distinct in
      (remove_some-Taken m (last m.nodes) v (last-In m.nodes), kept, back)

  module _ (m : Map A) (i : ℕ) (k : Index A) (v : IsMap m) (at_i : get_elem? m.key i ≡ some k) where
    -- On a well-formed map, at an index that it has, `map_get` removes the item that a search finds
    -- and leaves a well-formed map with all other nodes; where the search finds nothing it answers
    -- null and changes nothing.
    pub map_get-Taken : (a : A) → Taken m (map_get m a i)
    unfolding map_get
    map_get-Taken a =
        remove_some-Taken m (map_search m a i) v (λ n e. (map_search-Equal m i k v at_i a n e).0)
