-- ===== src/Map/Balance.antt =====
-- The search trees of lib/common/map.c's maps are balanced after any sequence of operations.
use sipecho.Common.{
  ℕ, zero, suc, ◌==◌, Bool-cases, inl, inr, ◌+◌, ◌<◌, ◌^◌, Bool, true, false, List, [], ◌∷◌, ◌≡◌,
  Option, none, some, Ordering, get_elem?, arith, subst, length,
}
use sipecho.Tree.Balance.{IsBalanced}
use sipecho.Tree.Balance.Height.{size, tdelete2_aborts-IsBalanced}
use sipecho.Tree.Delete.Stack.{tdelete2_aborts}
use sipecho.Tree.Walk.{and_then, in_order, twalk2, visit_all, twalk2-visit_all}
use sipecho.Map.{
  Node, Index, Map, node_cmp, Keyed, indexed, exists, failure, new_keys, map_new, map_key, map_push,
  map_push_back, last, map_search,
}
use sipecho.Map.Update.{
  map_remove, first, map_pop, map_pop_back, map_get, map_pure, map_erase, last_if, map_until,
  last_when, map_pop_back_when,
}
use sipecho.Map.Upsert.{Copy, Flag, map_push_find}
use sipecho.Map.NewIndex.{
  Outcome, finished, faulted, tdestroy2, key_all, root_of, refused, with_keys, map_add_key,
}
use sipecho.Map.Walk.{status, map_item_push, map_walk, settled, map_map}
use sipecho.Map.Balanced.{
  AllBalanced, MapIsBalanced, new_keys-AllBalanced, AllBalanced-append, map_key-AllBalanced,
  map_remove-AllBalanced, remove_some-AllBalanced, map_push-AllBalanced, map_push_back-AllBalanced,
  map_push_find-AllBalanced, remove_while-AllBalanced,
}

module _ {A : Type 0} where
  -- One operation on a map, with any comparison, copy function, flags, test and node. `mapped` gives
  -- the new map that `map_map` answers.
  pub data Change : Map A → Map A → Type 0 where
    pushed : (m : Map A) (o : Option A) → Change m (map_push m o).0
    pushed_back : (m : Map A) (o : Option A) → Change m (map_push_back m o).0
    pushed_or_found :
        (m : Map A) (o : Option A) (cpy : Option (Copy A)) (flag : Option Flag)
        → Change m (map_push_find m o cpy flag).after
    removed : (m : Map A) (n : Node A) → Change m (map_remove m n).0
    popped : (m : Map A) → Change m (map_pop m).0
    popped_back : (m : Map A) → Change m (map_pop_back m).0
    popped_back_when : (m : Map A) (test : A → Bool) → Change m (map_pop_back_when m test).0
    got : (m : Map A) (a : A) (i : ℕ) → Change m (map_get m a i).0
    purged : (m : Map A) (a : A) (i : ℕ) → Change m (map_pure m a i).0
    erased : (m : Map A) → Change m (map_erase m).0
    shortened : (m : Map A) (test : A → Bool) → Change m (map_until m test).0
    keyed :
        (m m' : Map A) (o : Option (A → A → Ordering)) (answer : Bool)
        → map_add_key m o ≡ finished (m', answer)
        → Change m m'
    mapped :
        (m m' : Map A) (i : ℕ) (cmps : List (A → A → Ordering))
        → (map_map m i cmps).answer ≡ some m'
        → Change m m'

  pub data Made (cmps : List (A → A → Ordering)) : Map A → Type 0 where
    created : Made cmps (map_new cmps)
    changed : (m m' : Map A) → Made cmps m → Change m m' → Made cmps m'

  key_all-AllBalanced :
      (ns : List (Node A)) (ks : List (Index A)) → AllBalanced ks → AllBalanced (key_all ns ks).1
  unfolding key_all
  key_all-AllBalanced [] ks v = v
  key_all-AllBalanced (n ∷ ns) ks v =
      by_answer (map_key n ks) (map_key-AllBalanced n ks v)
        (key_all-AllBalanced ns (map_key n ks).1 (map_key-AllBalanced n ks v))
    where
      by_answer :
          (o : Keyed A × List (Index A))
          → AllBalanced o.1
          → AllBalanced (key_all ns o.1).1
          → AllBalanced
              (elim o.0 as (λ (_ : Keyed A). Bool × List (Index A)) [
                | indexed ↦ key_all ns o.1
                | exists x ↦ (false, o.1)
                | failure ↦ (false, o.1)
              ]).1
      by_answer (indexed, ks') w again = again
      by_answer (exists x, ks') w again = w
      by_answer (failure, ks') w again = w

  AllBalanced-finished : Outcome (Map A × Bool) → Type 0
  AllBalanced-finished (faulted f) = Unit
  AllBalanced-finished (finished (m, answer)) = MapIsBalanced m

  refused-AllBalanced :
      (m : Map A) (o : Outcome (List (Node A)))
      → MapIsBalanced m
      → AllBalanced-finished (refused m o)
  unfolding AllBalanced-finished
  refused-AllBalanced m (finished freed) v = v
  refused-AllBalanced m (faulted f) v = tt

  map_add_key-AllBalanced :
      (m : Map A) (o : Option (A → A → Ordering))
      → MapIsBalanced m
      → AllBalanced-finished (map_add_key m o)
  unfolding map_add_key AllBalanced-finished tdestroy2
  map_add_key-AllBalanced m none v = v
  map_add_key-AllBalanced m (some cmp) v =
      by_keys (key_all m.nodes (new_keys (cmp ∷ [])))
        (key_all-AllBalanced m.nodes (new_keys (cmp ∷ [])) (new_keys-AllBalanced (cmp ∷ [])))
    where
      by_keys : (o : Bool × List (Index A)) → AllBalanced o.1 → AllBalanced-finished (with_keys m o)
      by_keys (true, ks) w = AllBalanced-append m.key ks v w
      by_keys (false, ks) w = refused-AllBalanced m (tdestroy2 (root_of ks) false) v

  pushed_all-AllBalanced :
      (ns : List (Node A)) (m : Map A)
      → MapIsBalanced m
      → MapIsBalanced (visit_all map_item_push ns m).1
  unfolding map_item_push
  pushed_all-AllBalanced [] m v = v
  pushed_all-AllBalanced (n ∷ ns) m v =
      by_answer (map_push m (some n.item)) (map_push-AllBalanced m (some n.item) v)
        (λ m' w. pushed_all-AllBalanced ns m' w)
    where
      by_answer :
          (o : Map A × Bool)
          → MapIsBalanced o.0
          → ((m' : Map A) → MapIsBalanced m' → MapIsBalanced (visit_all map_item_push ns m').1)
          → MapIsBalanced (and_then (status o) (visit_all map_item_push ns)).1
      by_answer (m', true) w rest = rest m' w
      by_answer (m', false) w rest = w

  AllBalanced-given : Option (Map A) → Type 0
  AllBalanced-given none = Unit
  AllBalanced-given (some m) = MapIsBalanced m

  settled-AllBalanced :
      (old : Map A) (o : ℕ × Map A) → MapIsBalanced o.1 → AllBalanced-given (settled old o).answer
  unfolding AllBalanced-given
  settled-AllBalanced old (fail, m) w = elim (Bool-cases (fail == 0)) [
    | inl e ↦ rw e w
    | inr e ↦ rw e tt
  ]

  map_walk-AllBalanced :
      (old : Map A) (i : ℕ) (m : Map A)
      → MapIsBalanced m
      → MapIsBalanced (map_walk old i map_item_push m).1
  unfolding map_walk
  map_walk-AllBalanced old i m v = by_index (get_elem? old.key i)
    where
      by_index :
          (o : Option (Index A))
          → MapIsBalanced
              (elim o as (λ (_ : Option (Index A)). ℕ × Map A) [
                | none ↦ (4294967295, m)
                | some k ↦ twalk2 (in_order map_item_push) k.root m
              ]).1
      by_index none = v
      by_index (some k) =
          rw (twalk2-visit_all map_item_push k.root m) (pushed_all-AllBalanced _ m v)

  Change-AllBalanced : (m m' : Map A) → Change m m' → MapIsBalanced m → MapIsBalanced m'
  unfolding map_pop map_pop_back map_pop_back_when map_get map_pure map_erase map_until
      AllBalanced-finished AllBalanced-given map_map map_new
  Change-AllBalanced m _ (Change.pushed _ o) v = map_push-AllBalanced m o v
  Change-AllBalanced m _ (Change.pushed_back _ o) v = map_push_back-AllBalanced m o v
  Change-AllBalanced m _ (Change.pushed_or_found _ o cpy flag) v =
      map_push_find-AllBalanced m o cpy flag v
  Change-AllBalanced m _ (Change.removed _ n) v = map_remove-AllBalanced m n v
  Change-AllBalanced m _ (Change.popped _) v = remove_some-AllBalanced m (first m.nodes) v
  Change-AllBalanced m _ (Change.popped_back _) v = remove_some-AllBalanced m (last m.nodes) v
  Change-AllBalanced m _ (Change.popped_back_when _ test) v =
      remove_some-AllBalanced m (last_when test m.nodes) v
  Change-AllBalanced m _ (Change.got _ a i) v = remove_some-AllBalanced m (map_search m a i) v
  Change-AllBalanced m _ (Change.purged _ a i) v = remove_some-AllBalanced m (map_search m a i) v
  Change-AllBalanced m _ (Change.erased _) v = remove_while-AllBalanced (length m.nodes) first m v
  Change-AllBalanced m _ (Change.shortened _ test) v =
      remove_while-AllBalanced (length m.nodes) (last_if test) m v
  Change-AllBalanced m m' (Change.keyed _ _ o answer e) v =
      subst AllBalanced-finished e (map_add_key-AllBalanced m o v)
  Change-AllBalanced m m' (Change.mapped _ _ i cmps e) v = subst AllBalanced-given e (
      settled-AllBalanced m (map_walk m i map_item_push (map_new cmps))
        (map_walk-AllBalanced m i (map_new cmps) (new_keys-AllBalanced cmps)))

  Made-AllBalanced : (cmps : List (A → A → Ordering)) (m : Map A) → Made cmps m → MapIsBalanced m
  unfolding map_new
  Made-AllBalanced cmps _ Made.created = new_keys-AllBalanced cmps
  Made-AllBalanced cmps _ (Made.changed m m' r s) =
      Change-AllBalanced m m' s (Made-AllBalanced cmps m r)

  AllBalanced-get_elem? :
      (ks : List (Index A)) (i : ℕ) (k : Index A)
      → get_elem? ks i ≡ some k
      → AllBalanced ks
      → IsBalanced k.root
  AllBalanced-get_elem? [] i k e v = absurd (ground (arith, e))
  AllBalanced-get_elem? (j ∷ ks) zero k e v =
      let same : j ≡ k = cc in subst (λ (x : Index A). IsBalanced x.root) same v.0
  AllBalanced-get_elem? (j ∷ ks) (suc i) k e v = AllBalanced-get_elem? ks i k e v.1

  -- The search tree of any index of a map that is made by `map_new` and any sequence of the
  -- operations of `Change`, those of `Map` and of the modules below it that give a map, is
  -- balanced; and if it has fewer than 2^50 - 1 nodes, no removal of a node from it reaches abort().
  -- The comparisons are any, and need not be orders.
  pub Reachable-aborts :
      (cmps : List (A → A → Ordering)) (m : Map A) (i : ℕ) (k : Index A) (n : Node A)
      → Made cmps m
      → get_elem? m.key i ≡ some k
      → size k.root + 1 < 2 ^ 50
      → IsBalanced k.root × (tdelete2_aborts (node_cmp k.cmp) n k.root ≡ false)
  Reachable-aborts cmps m i k n r e few =
      let b = AllBalanced-get_elem? m.key i k e (Made-AllBalanced cmps m r) in
      (b, tdelete2_aborts-IsBalanced (node_cmp k.cmp) n k.root b few)
