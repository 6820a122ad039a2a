-- ===== src/Map/Tests.antt =====
-- A map of numbers with one key, and the theorems about it.
use Prim.Native.Nat.{compare}
use sipecho.Common.{
  Bool, ltb, ℕ, true, false, List, [], ◌∷◌, ◌++◌, ◌≡◌, ◌≢◌, refl, inl, inr, none, some, Option,
  Ordering, In, arith, get_elem?,
}
use sipecho.Tree.{nil, node}
use sipecho.Tree.Search.{tsearch2}
use sipecho.Tree.Balance.{IsBalanced}
use sipecho.Tree.Delete.Stack.{tdelete2_aborts}
use sipecho.Map.Balance.{Change, Made, Reachable-aborts}
use sipecho.Tree.Walk.{twalk2}
use sipecho.Map.Walk.{map_map, map_item_push, MappedRight, map_map-MappedRight}
use sipecho.Tree.Tests.{compare-IsOrder}
use sipecho.Map.{Node, node_cmp, Index, Map, map_new, map_push, map_push_back, map_find, map_key}
use sipecho.Map.Update.{map_remove, map_erase, map_until, remove_while}
use sipecho.Map.Upsert.{Copy, map_push_find}
use sipecho.Map.Invariant.{IsMap, IsNew}
use sipecho.Map.Keying.{KeyedRight, map_key-KeyedRight, Unused-of_Below}
use sipecho.Map.Push.{items, Pushed, map_push-Pushed, map_push_back-Pushed}
use sipecho.Map.Find.{Found, map_find-Found}
use sipecho.Map.PushFind.{newer, map_find-push}
use sipecho.Map.Remove.{map_remove-IsMap}
use sipecho.Map.Take.{Erased, map_erase-items}
use sipecho.Map.Orphan.{Orphaned, map_push_find-orphan}
use sipecho.Tree.Spec.{IsOrder}
use sipecho.Map.GetOrInsert.{GotOrInserted, map_push_find-GotOrInserted}
use sipecho.Map.NewIndex.{
  finished, faulted, code_as_node, null_call, to_node, tdestroy2, key_all, map_add_key,
}
use sipecho.Map.AddKey.{Added, map_add_key-Added}
use sipecho.Map.Until.{Until, map_until-Until}
use sipecho.Map.Reach.{Reachable-IsMap, created, stepped, pushed, pushed_back}

abbrev by_value : List (ℕ → ℕ → Ordering)
by_value = compare ∷ []

-- 3 and 8, in this order.
abbrev two : Map ℕ
two = (map_push_back (map_push_back (map_new by_value) (some 3)).0 (some 8)).0

abbrev three : Node ℕ
three = record { address = 0; item = 3 }

abbrev eight : Node ℕ
eight = record { address = 1; item = 8 }

abbrev nine : Node ℕ
nine = record { address = 2; item = 9 }

abbrev index : Index ℕ
index = record { cmp = compare; root = node false nil three (node true nil eight nil) }

two-IsMap : IsMap two
two-IsMap =
    Reachable-IsMap by_value two (compare-IsOrder, tt)
      (stepped _ _ (stepped _ _ created (pushed_back _ _)) (pushed_back _ _))

two_nodes : two.nodes ≡ three ∷ eight ∷ []
unfolding map_push_back map_new map_key tsearch2
two_nodes = refl

two_index : get_elem? two.key 0 ≡ some index
unfolding map_push_back map_new map_key tsearch2
two_index = refl

eight-In : In eight two.nodes
eight-In = rw two_nodes (inr (inl refl))

nine-IsNew : IsNew 9 two.nodes two.key
unfolding map_push_back map_new map_key tsearch2
nine-IsNew = (new, tt)
  where
    new : (n : Node ℕ) → In n (three ∷ eight ∷ []) → compare 9 n.item ≢ Ordering.eq
    new n (inl e) q = ground arith
    new n (inr (inl e)) q = ground arith
    new n (inr (inr i)) q = absurd i

pushed_9 : (map_push two (some 9)).1 ≡ true
unfolding map_push map_push_back map_new map_key tsearch2
pushed_9 = refl

-- An equal item is refused.
pushed_8 : (map_push two (some 8)).1 ≡ false
unfolding map_push map_push_back map_new map_key tsearch2
pushed_8 = refl

map_push-Pushed_example : Pushed two 8 (8 ∷ items two) (map_push two (some 8))
map_push-Pushed_example = map_push-Pushed two 8 two-IsMap

map_push_back-Pushed_example : Pushed two 9 (items two ++ (9 ∷ [])) (map_push_back two (some 9))
map_push_back-Pushed_example = map_push_back-Pushed two 9 two-IsMap

map_key-KeyedRight_example : KeyedRight two.nodes nine two.key (map_key nine two.key)
unfolding map_push_back map_key map_new tsearch2
map_key-KeyedRight_example =
    map_key-KeyedRight two.nodes nine two.key (Unused-of_Below 2 two.nodes two-IsMap.fresh)
      two-IsMap.keyed

map_find-Found_example : Found two 0 index two-IsMap two_index 8 (map_find two 8 0)
map_find-Found_example = map_find-Found two 0 index two-IsMap two_index 8

map_find-push_example :
    map_find (map_push two (some 9)).0 9 0 ≡ newer (compare 9 9) 9 (map_find two 9 0)
map_find-push_example = map_find-push two 9 9 0 index two-IsMap two_index pushed_9

map_remove-IsMap_example : IsMap (map_remove two eight).0
map_remove-IsMap_example = map_remove-IsMap two eight two-IsMap eight-In

map_erase-items_example : Erased two (map_erase two)
map_erase-items_example = map_erase-items two two-IsMap

abbrev failing : Copy ℕ
failing = record { fresh = λ a. none; update = λ a b. a }

map_push_find-orphan_example : Orphaned two 9 (map_push_find two (some 9) (some failing) none)
map_push_find-orphan_example =
    map_push_find-orphan two 9 failing none index two-IsMap two_index nine-IsNew refl

Reachable-IsMap_example : IsMap (map_push two (some 9)).0
Reachable-IsMap_example =
    Reachable-IsMap by_value (map_push two (some 9)).0 (compare-IsOrder, tt)
      (stepped two _ (stepped _ _ (stepped _ _ created (pushed_back _ _)) (pushed_back _ _))
        (pushed two (some 9)))

-- The order from above down; by it, too, 3 and 8 differ.
abbrev downwards : ℕ → ℕ → Ordering
downwards a b = compare b a

downwards-IsOrder : IsOrder downwards
downwards-IsOrder = record {
  flip = λ a b. ground arith;
  same = λ a b c e. ground arith;
  lt_trans = λ a b c e f. ground arith;
}

-- All are equal.
abbrev alike : ℕ → ℕ → Ordering
alike a b = Ordering.eq

clashes : map_add_key two (some alike) ≡ faulted code_as_node
unfolding map_add_key key_all map_push_back map_new map_key tsearch2 tdestroy2
clashes = refl

frees :
    tdestroy2 (to_node false nil three (node true nil eight nil)) true
    ≡ finished (eight ∷ three ∷ [])
unfolding tdestroy2
frees = refl

frees_nothing :
    tdestroy2 (to_node false nil three (node true nil eight nil)) false ≡ faulted null_call
unfolding tdestroy2
frees_nothing = refl

map_add_key-Added_example : Added two downwards (map_add_key two (some downwards))
map_add_key-Added_example = map_add_key-Added two downwards two-IsMap downwards-IsOrder

abbrev above_5 : ℕ → Bool
above_5 a = ltb 5 a

freed_8 : (map_until two above_5).1 ≡ 8 ∷ []
unfolding map_until remove_while map_remove map_push_back map_new map_key tsearch2
freed_8 = refl

map_until-Until_example : Until above_5 two (map_until two above_5)
map_until-Until_example = map_until-Until above_5 two two-IsMap

map_push_find-GotOrInserted_example : GotOrInserted two 8 (map_push_find two (some 8) none none)
map_push_find-GotOrInserted_example = map_push_find-GotOrInserted two 8 two-IsMap

answered_8 : (map_push_find two (some 8) none none).answer ≡ some 8
unfolding map_push_find map_push_back map_new map_key tsearch2
answered_8 = refl

Reachable-aborts_example :
    IsBalanced index.root × (tdelete2_aborts (node_cmp compare) eight index.root ≡ false)
Reachable-aborts_example =
    Reachable-aborts by_value two 0 index eight
      (Made.changed _ _ (Made.changed _ _ Made.created (Change.pushed_back _ _))
        (Change.pushed_back _ _))
      two_index (omega arith)

abbrev item_list : Option (Map ℕ) → List ℕ
item_list none = []
item_list (some m) = items m

-- The items 3 and 8, in a map whose order is the other way around.
turned : item_list (map_map two 0 (downwards ∷ [])).answer ≡ 8 ∷ 3 ∷ []
unfolding map_map map_push_back map_new map_key tsearch2 map_push map_item_push twalk2
turned = refl

map_map-MappedRight_example :
    MappedRight two index (downwards ∷ []) (map_map two 0 (downwards ∷ []))
map_map-MappedRight_example =
    map_map-MappedRight two 0 index (downwards ∷ []) two_index (downwards-IsOrder, tt)
