-- ===== src/Map/Walk.antt =====
-- lib/common/map.c: `map_walk`, and `map_map`, which moves the items to a new map.
use sipecho.Common.{
  ℕ, ◌-◌, ◌^◌, Bool, true, false, ◌==◌, if◌then◌else◌, Option, none, some, List, [], ◌∷◌, map,
  Ordering, ◌≡◌, ◌⊎◌, subst, refl, ap, ◌∙◌, inl, inr, In, get_elem?,
}
use mathlib.Core.List.{reverse_aux, reverse}
use sipecho.Tree.Spec.{inorder}
use sipecho.Tree.Walk.{and_then, in_order, twalk2, visit_all, twalk2-visit_all}
use sipecho.Map.{
  Node, Index, Map, Keyed, indexed, exists, failure, new_keys, map_new, map_key, push_node,
  map_push,
}
use sipecho.Map.Invariant.{cmps_of, IsMap, IsTaken}
use sipecho.Map.Keying.{map_key-cmps}
use sipecho.Map.Push.{items, Pushed, map_push-Pushed}
use sipecho.Map.Reach.{AllOrder, map_new-IsMap}

-- -1, as the bit pattern of an int.
abbrev pub minus_one : ℕ
minus_one = 2 ^ 32 - 1

-- What `map_map` leaves of the old map, nothing where it is freed, and its answer.
pub record Mapped (A : Type 0) : Type 0 where
  pub old : Option (Map A)
  pub answer : Option (Map A)

module _ {A : Type 0} where
  -- `map_walk` at an index that is not negative; `exe` is given the state that it works on.
  unfoldable pub map_walk : {S : Type 0} → Map A → ℕ → (Node A → S → ℕ × S) → S → ℕ × S
  map_walk m i exe s = elim (get_elem? m.key i) [
    | none ↦ (minus_one, s)
    | some k ↦ twalk2 (in_order exe) k.root s
  ]

  -- What `map_push` answers, as an int.
  abbrev pub status : Map A × Bool → ℕ × Map A
  status (m, true) = (0, m)
  status (m, false) = (minus_one, m)

  -- `map_item_push`
  unfoldable pub map_item_push : Node A → Map A → ℕ × Map A
  map_item_push n m = status (map_push m (some n.item))

  -- The map whose items are popped one after another is then freed, not the items.
  abbrev pub settled : Map A → ℕ × Map A → Mapped A
  settled old (fail, m) =
      if fail == 0
      then record { old = none; answer = some m }
      else record { old = some old; answer = none }

  unfoldable pub map_map : Map A → ℕ → List (A → A → Ordering) → Mapped A
  unfolding map_walk
  map_map old i cmps = settled old (map_walk old i map_item_push (map_new cmps))

  -- By one of the comparisons, the item is equal to one of those before it.
  abbrev pub IsRepeated : List (A → A → Ordering) → List A → A → Type 0
  IsRepeated cmps before a =
      (cmp : A → A → Ordering) × (b : A) × In cmp cmps × In b before × (cmp a b ≡ Ordering.eq)

  -- Some item is equal to one before it: one of those before all, or of the list.
  abbrev pub Refused : List (A → A → Ordering) → List A → List (Node A) → Type 0
  Refused cmps before [] = ⊥
  Refused cmps before (n ∷ ns) = IsRepeated cmps before n.item ⊎ Refused cmps (n.item ∷ before) ns

  abbrev Moved : List (A → A → Ordering) → List (Node A) → List A → ℕ × Map A → Type 0
  Moved cmps ns before (fail, m) =
      ((fail ≡ 0)
        × IsMap m
        × (cmps_of m.key ≡ cmps)
        × (items m ≡ reverse_aux (map (λ n. n.item) ns) before))
      ⊎ (((fail == 0) ≡ false) × Refused cmps before ns)

  later-Moved :
      (cmps : List (A → A → Ordering)) (n : Node A) (ns : List (Node A)) (before : List A)
      (o : ℕ × Map A)
      → Moved cmps ns (n.item ∷ before) o
      → Moved cmps (n ∷ ns) before o
  later-Moved cmps n ns before (fail, m) (inl h) = inl h
  later-Moved cmps n ns before (fail, m) (inr (e, h)) = inr (e, inr h)

  item-In :
      (ns : List (Node A)) (n : Node A) → In n ns → In n.item (map (λ (x : Node A). x.item) ns)
  item-In [] n i = absurd i
  item-In (x ∷ ns) n (inl e) = inl (ap (λ (y : Node A). y.item) e)
  item-In (x ∷ ns) n (inr i) = inr (item-In ns n i)

  repeated :
      (nodes : List (Node A)) (ks : List (Index A)) (a : A)
      → IsTaken a nodes ks
      → IsRepeated (cmps_of ks) (map (λ (x : Node A). x.item) nodes) a
  repeated nodes [] a h = absurd h
  repeated nodes (k ∷ ks) a (inl (x, i, e)) = (k.cmp, x.item, inl refl, item-In nodes x i, e)
  repeated nodes (k ∷ ks) a (inr h) =
      let (cmp, b, i, j, e) = repeated nodes ks a h in (cmp, b, inr i, j, e)

  push_node-cmps :
      (m : Map A) (n : Node A) (add : List (Node A) → List (Node A)) (o : Keyed A × List (Index A))
      → cmps_of (push_node m n add o).0.key ≡ cmps_of o.1
  push_node-cmps m n add (indexed, ks) = refl
  push_node-cmps m n add (exists x, ks) = refl
  push_node-cmps m n add (failure, ks) = refl

  map_push-cmps : (m : Map A) (a : A) → cmps_of (map_push m (some a)).0.key ≡ cmps_of m.key
  unfolding map_push
  map_push-cmps m a =
      let n : Node A = record { address = m.next; item = a } in
      push_node-cmps m n (λ ns. n ∷ ns) (map_key n m.key) ∙ map_key-cmps n m.key

  push-Moved :
      (n : Node A) (ns : List (Node A)) (m : Map A) (o : Map A × Bool)
      → cmps_of o.0.key ≡ cmps_of m.key
      → Pushed m n.item (n.item ∷ items m) o
      → ((m' : Map A)
          → IsMap m'
          → Moved (cmps_of m'.key) ns (items m') (visit_all map_item_push ns m'))
      → Moved (cmps_of m.key) (n ∷ ns) (items m) (and_then (status o) (visit_all map_item_push ns))
  push-Moved n ns m (m', true) same h rest =
      later-Moved (cmps_of m.key) n ns (items m) (visit_all map_item_push ns m') (
        subst (λ (l : List A). Moved (cmps_of m.key) ns l (visit_all map_item_push ns m')) h.1
          (subst
            (λ (c : List (A → A → Ordering)). Moved c ns (items m') (visit_all map_item_push ns m'))
            same (rest m' h.0)))
  push-Moved n ns m (m', false) same h rest = inr (refl, inl (repeated m.nodes m.key n.item h.2))

  visit_all-Moved :
      (ns : List (Node A)) (m : Map A)
      → IsMap m
      → Moved (cmps_of m.key) ns (items m) (visit_all map_item_push ns m)
  unfolding map_item_push
  visit_all-Moved [] m v = inl (refl, v, refl, refl)
  visit_all-Moved (n ∷ ns) m v =
      push-Moved n ns m (map_push m (some n.item)) (map_push-cmps m n.item)
        (map_push-Pushed m n.item v) (λ m' v'. visit_all-Moved ns m' v')

  new_keys-cmps : (cmps : List (A → A → Ordering)) → cmps_of (new_keys cmps) ≡ cmps
  new_keys-cmps [] = refl
  new_keys-cmps (cmp ∷ cmps) = ap (◌∷◌ cmp) (new_keys-cmps cmps)

  -- What `map_map` does: either the old map is freed and the new one is well-formed, has these
  -- comparisons and the items of the index, the last one first; or the old map stays, there is no
  -- new one, and some item is equal to one before it.
  abbrev pub MappedRight : Map A → Index A → List (A → A → Ordering) → Mapped A → Type 0
  MappedRight old k cmps o =
      ((o.old ≡ none)
        × ((m : Map A) × (o.answer ≡ some m)
            × IsMap m
            × (cmps_of m.key ≡ cmps)
            × (items m ≡ reverse (map (λ n. n.item) (inorder k.root)))))
      ⊎ ((o.old ≡ some old) × (o.answer ≡ none) × Refused cmps [] (inorder k.root))

  settled-MappedRight :
      (old : Map A) (k : Index A) (cmps : List (A → A → Ordering)) (o : ℕ × Map A)
      → Moved cmps (inorder k.root) [] o
      → MappedRight old k cmps (settled old o)
  settled-MappedRight old k cmps (fail, m) (inl (e, v, c, q)) =
      rw e (inl (refl, (m, refl, v, c, q)))
  settled-MappedRight old k cmps (fail, m) (inr (e, h)) = rw e (inr (refl, refl, h))

  -- `map_map` at an index of a map, with comparisons that are orders: either the old map is freed
  -- and the answer is a well-formed map with these comparisons and the items in the reverse of
  -- their order in that index; or the old map stays, the answer is null, and an item of the index
  -- is equal to one that stands before it there, by one of the comparisons.
  pub map_map-MappedRight :
      (old : Map A) (i : ℕ) (k : Index A) (cmps : List (A → A → Ordering))
      → get_elem? old.key i ≡ some k
      → AllOrder cmps
      → MappedRight old k cmps (map_map old i cmps)
  unfolding map_map map_walk map_new
  map_map-MappedRight old i k cmps at_i orders =
      rw (at_i, map_walk)
        (settled-MappedRight old k cmps (twalk2 (in_order map_item_push) k.root (map_new cmps))
          (rw (twalk2-visit_all map_item_push k.root (map_new cmps)) (new-Moved (inorder k.root))))
    where
      new-Moved :
          (ns : List (Node A)) → Moved cmps ns [] (visit_all map_item_push ns (map_new cmps))
      new-Moved ns =
          subst
            (λ (c : List (A → A → Ordering)).
              Moved c ns [] (visit_all map_item_push ns (map_new cmps)))
            (new_keys-cmps cmps) (visit_all-Moved ns (map_new cmps) (map_new-IsMap cmps orders))
