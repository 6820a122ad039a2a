-- ===== src/Map/AddKey.antt =====
-- What `map_add_key` of lib/common/map.c does with a well-formed map.
use sipecho.Common.{
  Bool, true, false, List, [], ◌∷◌, ◌++◌, ◌≡◌, ◌≢◌, ◌⊎◌, inl, inr, refl, sym, ap, some, ◌==◌,
  Bool-cases, Ordering, In, get_elem?, length,
}
use sipecho.Tree.{nil}
use sipecho.Tree.Spec.{IsOrder, inorder}
use sipecho.Tree.Members.{eq_of_In}
use sipecho.Map.{Node, Index, Map, node_cmp, Keyed, indexed, exists, failure, new_keys, map_key}
use sipecho.Map.Invariant.{IsIndex, AllIndex, Unused, Distinct, IsMap, Equal, IsTaken}
use sipecho.Map.NewIndex.{
  Outcome, finished, faulted, code_as_node, tdestroy2, key_all, with_keys, map_add_key,
}
use sipecho.Tree.Search.{tsearch2}
use sipecho.Map.Keying.{node-IsOrder, searched, KeyedRight, map_key-KeyedRight, Unused-In}
use sipecho.Map.Push.{AllIndex-same}

module _ {A : Type 0} where
  -- Two nodes of the list, with different addresses, compare equal.
  abbrev pub Clash : (A → A → Ordering) → List (Node A) → Type 0
  Clash cmp nodes =
      (x : Node A) × (y : Node A) × In x nodes
      × In y nodes
      × (x.address ≢ y.address)
      × (cmp x.item y.item ≡ Ordering.eq)

  abbrev pub Apart : List (Node A) → List (Node A) → Type 0
  Apart todo over = (n : Node A) → In n todo → Unused n.address over

  -- One index, with this comparison.
  abbrev pub Single : (A → A → Ordering) → List (Index A) → Type 0
  Single cmp (k ∷ []) = k.cmp ≡ cmp
  Single cmp _ = ⊥

  -- What the loop gives, with the nodes `over` in the index when it starts.
  abbrev KeyedAll :
      (A → A → Ordering) → List (Node A) → List (Node A) → Bool × List (Index A) → Type 0
  KeyedAll cmp over todo (false, ks) =
      Single cmp ks
      × (x : Node A) × (y : Node A) × In x todo
      × (In y todo ⊎ In y over)
      × (x.address ≢ y.address)
      × (cmp x.item y.item ≡ Ordering.eq)
  KeyedAll cmp over todo (true, ks) =
      (nodes : List (Node A)) × AllIndex nodes ks
      × Single cmp ks
      × ((n : Node A) → In n nodes → In n todo ⊎ In n over)
      × ((n : Node A) → In n todo ⊎ In n over → In n nodes)

  Unused-swap :
      (n : Node A) (ns : List (Node A)) (m : Node A)
      → Unused n.address ns
      → In m ns
      → n.address ≢ m.address
  Unused-swap n ns m u i e = Unused-In n.address ns m u i (sym e)

  Clash-of_IsTaken :
      (cmp : A → A → Ordering) (n : Node A) (over todo : List (Node A)) (k : Index A)
      → Unused n.address over
      → k.cmp ≡ cmp
      → Equal k.cmp n.item over
      → (ks : List (Index A)) → Single cmp ks
      → KeyedAll cmp over (n ∷ todo) (false, ks)
  Clash-of_IsTaken cmp n over todo k u e (y, i, q) ks c =
      (c, n, y, inl refl, inr i, Unused-swap n over y u i, rw (← e) q)

  step_over :
      (cmp : A → A → Ordering) (n : Node A) (over todo : List (Node A)) (o : Bool × List (Index A))
      → KeyedAll cmp (n ∷ over) todo o
      → KeyedAll cmp over (n ∷ todo) o
  step_over cmp n over todo (false, ks) (c, x, y, i, j, ne, e) = (c, x, y, inr i, moved y j, ne, e)
    where
      moved : (y : Node A) → In y todo ⊎ In y (n ∷ over) → In y (n ∷ todo) ⊎ In y over
      moved y (inl h) = inl (inr h)
      moved y (inr (inl h)) = inl (inl h)
      moved y (inr (inr h)) = inr h
  step_over cmp n over todo (true, ks) (nodes, v, c, f, g) =
      (nodes, v, c, λ y i. forth y (f y i), λ y i. g y (back y i))
    where
      forth : (y : Node A) → In y todo ⊎ In y (n ∷ over) → In y (n ∷ todo) ⊎ In y over
      forth y (inl h) = inl (inr h)
      forth y (inr (inl h)) = inl (inl h)
      forth y (inr (inr h)) = inr h

      back : (y : Node A) → In y (n ∷ todo) ⊎ In y over → In y todo ⊎ In y (n ∷ over)
      back y (inl (inl h)) = inr (inl h)
      back y (inl (inr h)) = inl h
      back y (inr h) = inr (inr h)

  pub map_key-single : (n : Node A) (k : Index A) → (map_key n (k ∷ [])).1 ≡ searched n k ∷ []
  unfolding map_key
  map_key-single n k =
      elim (Bool-cases ((tsearch2 (node_cmp k.cmp) n k.root).0.address == n.address)) [
        | inl e ↦ rw (e, map_key) refl
        | inr e ↦ rw (e, map_key) refl
      ]

  Apart-step :
      (n : Node A) (todo over : List (Node A))
      → Distinct (n ∷ todo)
      → Apart (n ∷ todo) over
      → Apart todo (n ∷ over)
  Apart-step n todo over d a m i = (λ e. Unused-In n.address todo m d.0 i (sym e), a m (inr i))

  key_all-KeyedAll :
      (cmp : A → A → Ordering) (todo over : List (Node A)) (k : Index A)
      → k.cmp ≡ cmp
      → Distinct todo
      → Apart todo over
      → AllIndex over (k ∷ [])
      → KeyedAll cmp over todo (key_all todo (k ∷ []))
  unfolding key_all
  key_all-KeyedAll cmp [] over k same d a v = (over, v, same, λ n i. inr i, λ n i. unmoved n i)
    where
      unmoved : (n : Node A) → ⊥ ⊎ In n over → In n over
      unmoved n (inl h) = absurd h
      unmoved n (inr h) = h
  key_all-KeyedAll cmp (n ∷ todo) over k same d a v =
      by_answer (map_key n (k ∷ [])) (map_key-single n k)
        (map_key-KeyedRight over n (k ∷ []) (a n (inl refl)) v)
        (key_all-KeyedAll cmp todo (n ∷ over) (searched n k) same d.1 (Apart-step n todo over d a))
    where
      unused : Unused n.address over
      unused = a n (inl refl)

      taken :
          (ks : List (Index A))
          → ks ≡ searched n k ∷ []
          → IsTaken n.item over (k ∷ [])
          → KeyedAll cmp over (n ∷ todo) (false, ks)
      taken ks e (inl h) = Clash-of_IsTaken cmp n over todo k unused same h ks (rw e same)
      taken ks e (inr h) = absurd h

      by_answer :
          (o : Keyed A × List (Index A))
          → o.1 ≡ searched n k ∷ []
          → KeyedRight over n (k ∷ []) o
          → (AllIndex (n ∷ over) (searched n k ∷ [])
              → KeyedAll cmp (n ∷ over) todo (key_all todo (searched n k ∷ [])))
          → KeyedAll cmp over (n ∷ todo) (elim o.0 [
            | indexed ↦ key_all todo o.1
            | exists x ↦ (false, o.1)
            | failure ↦ (false, o.1)
          ])
      by_answer (indexed, ks) e h again =
          rw e (step_over cmp n over todo (key_all todo (searched n k ∷ [])) (again (rw e at h.0)))
      by_answer (exists x, ks) e h again = taken ks e h.1
      by_answer (failure, ks) e h again = taken ks e h.1

  AllIndex-append :
      (nodes : List (Node A)) (ks ks' : List (Index A))
      → AllIndex nodes ks
      → AllIndex nodes ks'
      → AllIndex nodes (ks ++ ks')
  AllIndex-append nodes [] ks' v w = w
  AllIndex-append nodes (k ∷ ks) ks' v w = (v.0, AllIndex-append nodes ks ks' v.1 w)

  get_elem?-length :
      (ks : List (Index A)) (k : Index A) → get_elem? (ks ++ (k ∷ [])) (length ks) ≡ some k
  get_elem?-length [] k = refl
  get_elem?-length (x ∷ ks) k = get_elem?-length ks k

  IsIndex-apart : (nodes : List (Node A)) (k : Index A) → IsIndex nodes k → Clash k.cmp nodes → ⊥
  IsIndex-apart nodes k v (x, y, i, j, ne, e) = ne (
      ap (λ (n : Node A). n.address)
        (eq_of_In (node-IsOrder v.order) x y (inorder k.root) v.sorted (v.complete x i)
          (v.complete y j) e))

  -- What `map_add_key` does, where it answers and where it does not.
  abbrev pub Added : Map A → (A → A → Ordering) → Outcome (Map A × Bool) → Type 0
  Added m cmp (faulted f) = (f ≡ code_as_node) × Clash cmp m.nodes
  Added m cmp (finished (m', false)) = ⊥
  Added m cmp (finished (m', true)) =
      IsMap m'
      × (m'.nodes ≡ m.nodes)
      × ¬ Clash cmp m.nodes
      × ((k : Index A) × (get_elem? m'.key (length m.key) ≡ some k) × (k.cmp ≡ cmp))

  with_keys-Added :
      (m : Map A) (cmp : A → A → Ordering) (o : Bool × List (Index A))
      → IsMap m
      → KeyedAll cmp [] m.nodes o
      → Added m cmp (with_keys m o)
  unfolding tdestroy2
  with_keys-Added m cmp (false, []) v h = absurd h.0
  with_keys-Added m cmp (false, k ∷ ks) v (c, x, y, i, inl j, ne, e) = (refl, (x, y, i, j, ne, e))
  with_keys-Added m cmp (false, k ∷ ks) v (c, x, y, i, inr j, ne, e) = absurd j
  with_keys-Added m cmp (true, []) v (nodes, w, c, f, g) = absurd c
  with_keys-Added m cmp (true, k ∷ k' ∷ ks) v (nodes, w, c, f, g) = absurd c
  with_keys-Added m cmp (true, k ∷ []) v (nodes, w, c, f, g) =
      let here =
        AllIndex-same nodes m.nodes (k ∷ []) (λ n i. listed n (f n i)) (λ n i. g n (inl i)) w in
      (
        record {
          keyed = AllIndex-append m.nodes m.key (k ∷ []) v.keyed here;
          sized = v.sized;
          fresh = v.fresh;
          distinct = v.distinct;
        },
        refl,
        rw (← c) (IsIndex-apart m.nodes k here.0),
        (k, get_elem?-length m.key k, c),
      )
    where
      listed : (n : Node A) → In n m.nodes ⊎ ⊥ → In n m.nodes
      listed n (inl h) = h
      listed n (inr h) = absurd h

  -- `map_add_key` with an order on a well-formed map. Where no two nodes compare equal by it, it
  -- answers 0 and the map is well-formed with the same nodes, the new comparison being its last
  -- index. Where two nodes do, it does not answer: its behaviour is undefined, as the address of the
  -- comparison is followed as that of a node.
  pub map_add_key-Added :
      (m : Map A) (cmp : A → A → Ordering)
      → IsMap m
      → IsOrder cmp
      → Added m cmp (map_add_key m (some cmp))
  unfolding map_add_key
  map_add_key-Added m cmp v o = with_keys-Added m cmp (key_all m.nodes (new_keys (cmp ∷ []))) v (
      key_all-KeyedAll cmp m.nodes [] (record { cmp = cmp; root = nil }) refl v.distinct (λ n i. tt)
        (record { order = o; sorted = tt; sound = λ n i. i; complete = λ n i. i }, tt))
