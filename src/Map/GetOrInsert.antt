-- ===== src/Map/GetOrInsert.antt =====
-- `map_push_find` without a copy function and without flags: the equal item of the map, or the
-- item that it inserts.
use sipecho.Common.{
  ℕ, ne_eq, ==_refl, List, [], ◌∷◌, ◌++◌, map, ◌≡◌, ◌⊎◌, inl, inr, refl, sym, Option, none, some,
  In, arith,
}
use sipecho.Tree.{Tree, nil, node}
use sipecho.Tree.Spec.{inorder}
use sipecho.Map.{Node, Index, Map, Keyed, indexed, exists, failure, map_key}
use sipecho.Map.Upsert.{PushFound, set_item, set_tree, push_found, map_push_find}
use sipecho.Map.Invariant.{AllIndex, Below, IsMap, IsNew, IsTaken}
use sipecho.Map.Keying.{
  KeyedRight, EqualAtFirst, TakenPastFirst, map_key-KeyedRight, Unused-of_Below, Unused-In,
}
use sipecho.Map.Push.{items, Below-suc}

module _ {A : Type 0} where
  In-append_left : (xs ys : List (Node A)) (n : Node A) → In n xs → In n (xs ++ ys)
  In-append_left [] ys n h = absurd h
  In-append_left (x ∷ xs) ys n (inl e) = inl e
  In-append_left (x ∷ xs) ys n (inr i) = inr (In-append_left xs ys n i)

  In-append_right : (xs ys : List (Node A)) (n : Node A) → In n ys → In n (xs ++ ys)
  In-append_right [] ys n h = h
  In-append_right (x ∷ xs) ys n h = inr (In-append_right xs ys n h)

  -- A store keeps a tree all of whose nodes it leaves as they are.
  set_tree_same :
      (p : ℕ) (a : A) (t : Tree (Node A))
      → ((n : Node A) → In n (inorder t) → set_item p a n ≡ n)
      → set_tree p a t ≡ t
  set_tree_same p a nil h = refl
  set_tree_same p a (node red l x r) h =
      rw
        (
          set_tree_same p a l (λ n i. h n (In-append_left (inorder l) (x ∷ inorder r) n i)),
          set_tree_same p a r (λ n i. h n (In-append_right (inorder l) (x ∷ inorder r) n (inr i))),
          h x (In-append_right (inorder l) (x ∷ inorder r) x (inl refl)),
        )
        refl

  set_items_same :
      (p : ℕ) (a : A) (ns : List (Node A))
      → ((n : Node A) → In n ns → set_item p a n ≡ n)
      → map (set_item p a) ns ≡ ns
  set_items_same p a [] h = refl
  set_items_same p a (n ∷ ns) h =
      rw (h n (inl refl), set_items_same p a ns (λ m i. h m (inr i))) refl

  set_keys_same :
      (p : ℕ) (a : A) (ns : List (Node A)) (ks : List (Index A))
      → AllIndex ns ks
      → ((n : Node A) → In n ns → set_item p a n ≡ n)
      → map (λ (k : Index A). record k { root = set_tree p a k.root }) ks ≡ ks
  set_keys_same p a ns [] v h = refl
  set_keys_same p a ns (k ∷ ks) v h =
      rw (set_tree_same p a k.root (λ n i. h n (v.0.sound n i)), set_keys_same p a ns ks v.1 h) refl

  set_item_new :
      (m : Map A) (a : A) (n : Node A)
      → Below m.next m.nodes
      → In n (record { address = m.next; item = a } ∷ m.nodes)
      → set_item m.next a n ≡ n
  set_item_new m a n b (inl e) = rw e (rw (==_refl m.next) refl)
  set_item_new m a n b (inr i) =
      rw
        (ne_eq n.address m.next
          (λ e. Unused-In m.next m.nodes n (Unused-of_Below m.next m.nodes b) i (sym e)))
        refl

  -- Null is answered where no item of the map is equal by the first index, but one is by a later
  -- one; an item that is answered is one of the map and equal by the first index.
  abbrev pub AnsweredFrom : A → List (Node A) → List (Index A) → Option A → Type 0
  AnsweredFrom a ns ks none = TakenPastFirst a ns ks
  AnsweredFrom a ns ks (some x) = ((n : Node A) × In n ns × (n.item ≡ x)) × EqualAtFirst a x ks

  -- What `map_push_find` leaves and answers.
  abbrev pub GotOrInserted : Map A → A → PushFound A → Type 0
  GotOrInserted m a o =
      IsMap o.after
      × ((IsNew a m.nodes m.key × (items o.after ≡ a ∷ items m) × (o.answer ≡ some a))
          ⊎ (IsTaken a m.nodes m.key
              × (items o.after ≡ items m)
              × AnsweredFrom a m.nodes m.key o.answer))

  -- On a well-formed map, `map_push_find` without copy function and flags inserts an item that is
  -- new to every index at the front, and answers it. Else the items stay; the answer is an item of
  -- the map that is equal by the first index, or null, where there is none, but an item is equal by
  -- a later index. The map stays well-formed.
  pub map_push_find-GotOrInserted :
      (m : Map A) (a : A) → IsMap m → GotOrInserted m a (map_push_find m (some a) none none)
  unfolding map_push_find
  map_push_find-GotOrInserted m a v =
      by_answer (map_key n m.key)
        (map_key-KeyedRight m.nodes n m.key (Unused-of_Below m.next m.nodes v.fresh) v.keyed)
    where
      n : Node A
      n = record { address = m.next; item = a }

      by_answer :
          (o : Keyed A × List (Index A))
          → KeyedRight m.nodes n m.key o
          → GotOrInserted m a (push_found m n a none none o)
      by_answer (indexed, ks) h =
          let same_nodes =
            set_items_same m.next a m.nodes (λ x i. set_item_new m a x v.fresh (inr i)) in
          let same_keys =
            set_keys_same m.next a (n ∷ m.nodes) ks h.0 (λ x i. set_item_new m a x v.fresh i) in
          (
            record {
              keyed = rw (same_nodes, same_keys) h.0;
              sized = rw same_nodes (omega (arith, v.sized));
              fresh = rw same_nodes (omega arith, Below-suc m.next m.nodes v.fresh);
              distinct = rw same_nodes (Unused-of_Below m.next m.nodes v.fresh, v.distinct);
            },
            inl (h.1, rw same_nodes refl, refl),
          )
      by_answer (exists x, ks) h = (
        record {
          keyed = h.0;
          sized = v.sized;
          fresh = Below-suc m.next m.nodes v.fresh;
          distinct = v.distinct;
        },
        inr (h.1, refl, ((x, h.2, refl), h.3)),
      )
      by_answer (failure, ks) h = (
        record {
          keyed = h.0;
          sized = v.sized;
          fresh = Below-suc m.next m.nodes v.fresh;
          distinct = v.distinct;
        },
        inr (h.1, refl, h.2),
      )
