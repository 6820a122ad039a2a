-- ===== src/Dns/Lookup.antt =====
-- The map of the lookups that wait: one index, by the id.
use sipecho.Common.{
  ℕ, ◌+◌, ◌<◌, ◌^◌, Bool, true, List, [], ◌∷◌, ◌≡◌, ◌≢◌, refl, sym, inl, inr, some, map, In,
  get_elem?, arith,
}
use sipecho.Map.{
  Node, Index, Map, remove_leaf, Keyed, indexed, exists, failure, map_new, map_key, push_node,
  map_push, map_search,
}
use sipecho.Map.Update.{unlink, map_remove}
use sipecho.Map.Invariant.{IsMap, IsTaken}
use sipecho.Map.Push.{items, Pushed, map_push-Pushed}
use sipecho.Map.Find.{map_search_of_In, map_search-Equal}
use sipecho.Map.Remove.{unlink-In, map_remove-IsMap}
use sipecho.Map.AddKey.{Single, map_key-single}
use sipecho.Map.Reach.{map_new-IsMap}
use sipecho.Dns.{Entity, dns_compare}
use sipecho.Dns.Order.{dns_compare-IsOrder, dns_compare_of_id, dns_compare-id}

module _ {Callback Address : Type 0} where
  -- Every id is an int, and at most `top`.
  abbrev pub IdsUpTo : ℕ → List (Node (Entity Callback Address)) → Type 0
  IdsUpTo top [] = Unit
  IdsUpTo top (n ∷ ns) = (n.item.id < top + 1) × IdsUpTo top ns

  abbrev pub NoId : ℕ → List (Node (Entity Callback Address)) → Type 0
  NoId id [] = Unit
  NoId id (n ∷ ns) = (n.item.id ≢ id) × NoId id ns

  -- The lookups that wait on a connection, with ids up to `top`.
  pub record IsPending (top : ℕ) (m : Map (Entity Callback Address)) : Type 0 where
    pub is_map : IsMap m
    pub single : Single dns_compare m.key
    pub ids : IdsUpTo top m.nodes
    pub small : top < 2 ^ 32

  pub IdsUpTo-In :
      (top : ℕ) (ns : List (Node (Entity Callback Address))) (n : Node (Entity Callback Address))
      → IdsUpTo top ns
      → In n ns
      → n.item.id < top + 1
  IdsUpTo-In top [] n h i = absurd i
  IdsUpTo-In top (x ∷ ns) n h (inl e) = rw e h.0
  IdsUpTo-In top (x ∷ ns) n h (inr i) = IdsUpTo-In top ns n h.1 i

  IdsUpTo-of_In :
      (top : ℕ) (ns : List (Node (Entity Callback Address)))
      → ((n : Node (Entity Callback Address)) → In n ns → n.item.id < top + 1)
      → IdsUpTo top ns
  IdsUpTo-of_In top [] h = tt
  IdsUpTo-of_In top (x ∷ ns) h = (h x (inl refl), IdsUpTo-of_In top ns (λ n i. h n (inr i)))

  pub IdsUpTo-more :
      (top more : ℕ) (ns : List (Node (Entity Callback Address)))
      → top < more
      → IdsUpTo top ns
      → IdsUpTo more ns
  IdsUpTo-more top more [] lt h = tt
  IdsUpTo-more top more (x ∷ ns) lt h = (omega arith, IdsUpTo-more top more ns lt h.1)

  pub NoId-above :
      (top id : ℕ) (ns : List (Node (Entity Callback Address)))
      → top < id
      → IdsUpTo top ns
      → NoId id ns
  NoId-above top id [] lt h = tt
  NoId-above top id (x ∷ ns) lt h = (λ e. absurd (omega arith), NoId-above top id ns lt h.1)

  pub NoId-In :
      (id : ℕ) (ns : List (Node (Entity Callback Address))) (n : Node (Entity Callback Address))
      → NoId id ns
      → In n ns
      → n.item.id ≢ id
  NoId-In id [] n h i = absurd i
  NoId-In id (x ∷ ns) n h (inl e) = rw e h.0
  NoId-In id (x ∷ ns) n h (inr i) = NoId-In id ns n h.1 i

  pub get_of_Single :
      (ks : List (Index (Entity Callback Address)))
      → Single dns_compare ks
      → (k : Index (Entity Callback Address)) × (get_elem? ks 0 ≡ some k) × (k.cmp ≡ dns_compare)
  get_of_Single [] s = absurd s
  get_of_Single (k ∷ []) s = (k, refl, s)
  get_of_Single (k ∷ k' ∷ ks) s = absurd s

  map_key-Single :
      (n : Node (Entity Callback Address)) (ks : List (Index (Entity Callback Address)))
      → Single dns_compare ks
      → Single dns_compare (map_key n ks).1
  map_key-Single n [] s = absurd s
  map_key-Single n (k ∷ []) s = rw (map_key-single n k) s
  map_key-Single n (k ∷ k' ∷ ks) s = absurd s

  taken_id :
      (a : Entity Callback Address) (top : ℕ) (ns : List (Node (Entity Callback Address)))
      (ks : List (Index (Entity Callback Address)))
      → Single dns_compare ks
      → a.id < 2 ^ 32
      → top < 2 ^ 32
      → IdsUpTo top ns
      → NoId a.id ns
      → IsTaken a ns ks
      → ⊥
  taken_id a top ns [] s small lt ids new h = absurd s
  taken_id a top ns (k ∷ k' ∷ ks) s small lt ids new h = absurd s
  taken_id a top ns (k ∷ []) s small lt ids new (inr h) = absurd h
  taken_id a top ns (k ∷ []) s small lt ids new (inl (n, i, e)) =
      NoId-In a.id ns n new i
        (sym (dns_compare-id a n.item small (omega (arith, IdsUpTo-In top ns n ids i)) (rw s at e)))

  abbrev new_node :
      Map (Entity Callback Address) → Entity Callback Address → Node (Entity Callback Address)
  new_node m a = record { address = m.next; item = a }

  -- What `map_push` leaves of a lookup with a new id.
  abbrev pub Added :
      ℕ
      → Map (Entity Callback Address)
      → Entity Callback Address
      → Map (Entity Callback Address) × Bool
      → Type 0
  Added top m a o = (o.1 ≡ true) × (o.0.nodes ≡ new_node m a ∷ m.nodes) × IsPending top o.0

  push_node-Added :
      (top : ℕ) (m : Map (Entity Callback Address)) (a : Entity Callback Address)
      (o : Keyed (Entity Callback Address) × List (Index (Entity Callback Address)))
      → (IsTaken a m.nodes m.key → ⊥)
      → IdsUpTo top (new_node m a ∷ m.nodes)
      → top < 2 ^ 32
      → Single dns_compare o.1
      → Pushed m a (a ∷ items m) (push_node m (new_node m a) (λ ns. new_node m a ∷ ns) o)
      → Added top m a (push_node m (new_node m a) (λ ns. new_node m a ∷ ns) o)
  push_node-Added top m a (indexed, ks) new ids lt s h =
      (refl, refl, record { is_map = h.0; single = s; ids = ids; small = lt })
  push_node-Added top m a (exists x, ks) new ids lt s h = absurd (new h.2)
  push_node-Added top m a (failure, ks) new ids lt s h = absurd (new h.2)

  -- A lookup with an id that no other has is put at the front.
  pub map_push-Added :
      (last top : ℕ) (m : Map (Entity Callback Address)) (a : Entity Callback Address)
      → IsPending last m
      → NoId a.id m.nodes
      → IdsUpTo top m.nodes
      → a.id < top + 1
      → top < 2 ^ 32
      → Added top m a (map_push m (some a))
  unfolding map_push
  map_push-Added last top m a v new ids lt small =
      push_node-Added top m a (map_key (new_node m a) m.key)
        (taken_id a last m.nodes m.key v.single (omega arith) v.small v.ids new) (lt, ids) small
        (map_key-Single (new_node m a) m.key v.single) (map_push-Pushed m a v.is_map)

  remove_leaf-Single :
      (n : Node (Entity Callback Address)) (ks : List (Index (Entity Callback Address)))
      → Single dns_compare ks
      → Single dns_compare (map (remove_leaf n) ks)
  remove_leaf-Single n [] s = absurd s
  remove_leaf-Single n (k ∷ []) s = s
  remove_leaf-Single n (k ∷ k' ∷ ks) s = absurd s

  pub map_remove-IsPending :
      (top : ℕ) (m : Map (Entity Callback Address)) (n : Node (Entity Callback Address))
      → IsPending top m
      → In n m.nodes
      → IsPending top (map_remove m n).0
  unfolding map_remove
  map_remove-IsPending top m n v i = record {
    is_map = map_remove-IsMap m n v.is_map i;
    single = remove_leaf-Single n m.key v.single;
    ids =
        IdsUpTo-of_In top (unlink n.address m.nodes)
          (λ x j. IdsUpTo-In top m.nodes x v.ids (unlink-In n.address m.nodes x j));
    small = v.small;
  }

  -- A search for an id that waits finds its lookup.
  pub map_search_of_id :
      (top : ℕ) (m : Map (Entity Callback Address)) (n : Node (Entity Callback Address))
      (a : Entity Callback Address)
      → IsPending top m
      → In n m.nodes
      → a.id ≡ n.item.id
      → map_search m a 0 ≡ some n
  map_search_of_id top m n a v i e =
      let (k, at_0, same) = get_of_Single m.key v.single in
      map_search_of_In m 0 k v.is_map at_0 a n i (rw same (dns_compare_of_id a n.item e))

  -- What a search for a small id finds is a lookup with that id.
  pub map_search-id :
      (top : ℕ) (m : Map (Entity Callback Address)) (n : Node (Entity Callback Address))
      (a : Entity Callback Address)
      → IsPending top m
      → a.id < 2 ^ 32
      → map_search m a 0 ≡ some n
      → In n m.nodes × (a.id ≡ n.item.id)
  map_search-id top m n a v small h =
      let (k, at_0, same) = get_of_Single m.key v.single in
      let (i, e) = map_search-Equal m 0 k v.is_map at_0 a n h in
      (
        i,
        dns_compare-id a n.item small (omega (arith, v.small, IdsUpTo-In top m.nodes n v.ids i))
            (rw same at e),
      )

  -- No lookup waits on a new connection.
  pub map_new-IsPending :
      IsPending 0 (map_new (dns_compare {Callback = Callback} {Address = Address} ∷ []))
  unfolding map_new
  map_new-IsPending = record {
    is_map = map_new-IsMap (dns_compare ∷ []) (dns_compare-IsOrder, tt);
    single = refl;
    ids = tt;
    small = omega arith;
  }
