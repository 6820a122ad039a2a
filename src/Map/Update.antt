-- ===== src/Map/Update.antt =====
-- lib/common/map.c: the operations that take nodes out of a map.
use sipecho.Common.{
  ℕ, zero, suc, ◌-◌, Bool, ◌==◌, if◌then◌else◌, Option, none, some, List, [], ◌∷◌, map, length,
}
use sipecho.Map.{Node, Map, remove_leaf, last, map_search}

module _ {A : Type 0} where
  -- The list without the node of an address: its neighbours are linked to one another.
  abbrev pub unlink : ℕ → List (Node A) → List (Node A)
  unlink p [] = []
  unlink p (n ∷ ns) = if n.address == p then ns else n ∷ unlink p ns

  -- `map_remove` at a node that is not null; the item is returned.
  unfoldable pub map_remove : Map A → Node A → Map A × A
  map_remove m n = (
    record m {
      nodes = unlink n.address m.nodes;
      key = map (remove_leaf n) m.key;
      size = m.size - 1;
    },
    n.item,
  )

  abbrev pub remove_some : Map A → Option (Node A) → Map A × Option A
  remove_some m none = (m, none)
  remove_some m (some n) = let (m', a) = map_remove m n in (m', some a)

  abbrev pub first : List (Node A) → Option (Node A)
  first [] = none
  first (n ∷ ns) = some n

  -- `map_pop`, `map_pop_back`
  unfoldable pub map_pop : Map A → Map A × Option A
  unfolding map_remove
  map_pop m = remove_some m (first m.nodes)

  unfoldable pub map_pop_back : Map A → Map A × Option A
  unfolding map_remove
  map_pop_back m = remove_some m (last m.nodes)

  -- `map_get`: remove the item that a search finds.
  unfoldable pub map_get : Map A → A → ℕ → Map A × Option A
  unfolding map_remove
  map_get m a i = remove_some m (map_search m a i)

  abbrev pub given : Option A → List A
  given none = []
  given (some a) = a ∷ []

  -- `map_pure`: the same, with the item given to `__free`.
  unfoldable pub map_pure : Map A → A → ℕ → Map A × List A
  unfolding map_get
  map_pure m a i = let (m', o) = map_get m a i in (m', given o)

  -- The loops of `map_erase` and `map_until`: `pick` is the loop's test, the node to remove or
  -- nothing. One round for each node of the list is enough fuel.
  unfoldable pub remove_while : ℕ → (List (Node A) → Option (Node A)) → Map A → Map A × List A
  unfolding map_remove
  remove_while zero pick m = (m, [])
  remove_while (suc rounds) pick m = elim (pick m.nodes) [
    | none ↦ (m, [])
    | some n ↦
        let (m', a) = map_remove m n in
        let (m'', freed) = remove_while rounds pick m' in (m'', a ∷ freed)
  ]

  -- `map_erase`
  unfoldable pub map_erase : Map A → Map A × List A
  unfolding remove_while
  map_erase m = remove_while (length m.nodes) first m

  abbrev pub last_if : (A → Bool) → List (Node A) → Option (Node A)
  last_if test ns = elim (last ns) [ none ↦ none | some n ↦ if test n.item then some n else none ]

  -- `map_until`
  unfoldable pub map_until : Map A → (A → Bool) → Map A × List A
  unfolding remove_while
  map_until m test = remove_while (length m.nodes) (last_if test) m

  -- `map_pop_back_when`: from the tail up, the first node whose item passes the test.
  abbrev pub last_when : (A → Bool) → List (Node A) → Option (Node A)
  last_when test [] = none
  last_when test (n ∷ ns) = elim (last_when test ns) [
    | some m ↦ some m
    | none ↦ if test n.item then some n else none
  ]

  unfoldable pub map_pop_back_when : Map A → (A → Bool) → Map A × Option A
  unfolding map_remove
  map_pop_back_when m test = remove_some m (last_when test m.nodes)
