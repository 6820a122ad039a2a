-- ===== src/Map/Reach.antt =====
-- Sequences of operations on a map: every map that a program can make with the operations of
-- lib/common/map.c that are modelled here.
use sipecho.Common.{
  ℕ, List, [], ◌∷◌, ◌≡◌, Ordering, subst, Option, none, some, true, false, Bool, refl, In,
  get_elem?,
}
use sipecho.Tree.Spec.{IsOrder}
use sipecho.Map.{Node, Index, Map, new_keys, map_new, map_push, map_push_back}
use sipecho.Map.Update.{map_remove, map_get, map_pop, map_pop_back}
use sipecho.Map.Invariant.{AllIndex, IsMap}
use sipecho.Map.Upsert.{map_push_find}
use sipecho.Map.GetOrInsert.{map_push_find-GotOrInserted}
use sipecho.Map.NewIndex.{finished, map_add_key}
use sipecho.Map.AddKey.{Added, map_add_key-Added}
use sipecho.Map.Push.{Pushed, map_push-Pushed, map_push_back-Pushed}
use sipecho.Map.Remove.{map_remove-IsMap}
use sipecho.Map.Take.{Taken, map_get-Taken, map_pop-front, map_pop_back-back}

module _ {A : Type 0} where
  abbrev pub AllOrder : List (A → A → Ordering) → Type 0
  AllOrder [] = Unit
  AllOrder (cmp ∷ cmps) = IsOrder cmp × AllOrder cmps

  -- One operation, on a map and giving a map.
  pub data Step : Map A → Map A → Type 0 where
    pushed : (m : Map A) (o : Option A) → Step m (map_push m o).0
    pushed_back : (m : Map A) (o : Option A) → Step m (map_push_back m o).0
    popped : (m : Map A) → Step m (map_pop m).0
    keyed :
        (m m' : Map A) (cmp : A → A → Ordering) (answer : Bool)
        → IsOrder cmp
        → map_add_key m (some cmp) ≡ finished (m', answer)
        → Step m m'
    pushed_or_found : (m : Map A) (a : A) → Step m (map_push_find m (some a) none none).after
    popped_back : (m : Map A) → Step m (map_pop_back m).0
    removed : (m : Map A) (n : Node A) → In n m.nodes → Step m (map_remove m n).0
    got :
        (m : Map A) (a : A) (i : ℕ) (k : Index A)
        → get_elem? m.key i ≡ some k
        → Step m (map_get m a i).0

  pub data Reachable (cmps : List (A → A → Ordering)) : Map A → Type 0 where
    created : Reachable cmps (map_new cmps)
    stepped : (m m' : Map A) → Reachable cmps m → Step m m' → Reachable cmps m'

  AllIndex-new_keys : (cmps : List (A → A → Ordering)) → AllOrder cmps → AllIndex [] (new_keys cmps)
  AllIndex-new_keys [] h = tt
  AllIndex-new_keys (cmp ∷ cmps) h = (
    record { order = h.0; sorted = tt; sound = λ n i. i; complete = λ n i. i },
    AllIndex-new_keys cmps h.1,
  )

  pub map_new-IsMap : (cmps : List (A → A → Ordering)) → AllOrder cmps → IsMap (map_new cmps)
  unfolding map_new
  map_new-IsMap cmps h = record {
    keyed = AllIndex-new_keys cmps h;
    sized = refl;
    fresh = tt;
    distinct = tt;
  }

  Pushed-IsMap :
      (m : Map A) (a : A) (new : List A) (o : Map A × Bool) → Pushed m a new o → IsMap o.0
  Pushed-IsMap m a new (m', true) h = h.0
  Pushed-IsMap m a new (m', false) h = h.0

  Taken-IsMap : (m : Map A) (o : Map A × Option A) → IsMap m → Taken m o → IsMap o.0
  Taken-IsMap m (m', none) v h = rw h v
  Taken-IsMap m (m', some x) v h = h.0

  Added-IsMap :
      (m m' : Map A) (cmp : A → A → Ordering) (answer : Bool)
      → Added m cmp (finished (m', answer))
      → IsMap m'
  Added-IsMap m m' cmp true h = h.0
  Added-IsMap m m' cmp false h = absurd h

  Step-IsMap : (m m' : Map A) → Step m m' → IsMap m → IsMap m'
  unfolding map_push map_push_back
  Step-IsMap m _ (pushed _ none) v = v
  Step-IsMap m _ (pushed _ (some a)) v = Pushed-IsMap m a _ _ (map_push-Pushed m a v)
  Step-IsMap m _ (pushed_back _ none) v = v
  Step-IsMap m _ (pushed_back _ (some a)) v = Pushed-IsMap m a _ _ (map_push_back-Pushed m a v)
  Step-IsMap m _ (popped _) v = Taken-IsMap m (map_pop m) v (map_pop-front m v).0
  Step-IsMap m _ (popped_back _) v = Taken-IsMap m (map_pop_back m) v (map_pop_back-back m v).0
  Step-IsMap m m' (keyed _ _ cmp answer o e) v =
      Added-IsMap m m' cmp answer (subst (Added m cmp) e (map_add_key-Added m cmp v o))
  Step-IsMap m _ (pushed_or_found _ a) v = (map_push_find-GotOrInserted m a v).0
  Step-IsMap m _ (removed _ n i) v = map_remove-IsMap m n v i
  Step-IsMap m _ (got _ a i k e) v = Taken-IsMap m (map_get m a i) v (map_get-Taken m i k v e a)

  -- Every map made by `map_new` with comparisons that are orders, and then changed by any sequence
  -- of `map_push`, `map_push_back`, `map_pop`, `map_pop_back`, `map_get` at an index that the map
  -- has, `map_push_find` without copy function and flags, `map_add_key` with an order where it answers, and
  -- `map_remove` at a node of the map, is well-formed.
  pub Reachable-IsMap :
      (cmps : List (A → A → Ordering)) (m : Map A) → AllOrder cmps → Reachable cmps m → IsMap m
  Reachable-IsMap cmps _ h created = map_new-IsMap cmps h
  Reachable-IsMap cmps _ h (stepped m m' r s) = Step-IsMap m m' s (Reachable-IsMap cmps m h r)
