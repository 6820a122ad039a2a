-- ===== src/Map.antt =====
-- lib/common/map.c and map.h: a list of items with any number of search trees over it.
-- Built without MAP_WITH_THREAD, so the lock macros are empty. The doubly linked list of nodes is a
-- list, `map->root` first and `map->tail` last; a node's address is a number, and `next` is an
-- address that no node has had. Allocation succeeds. What is handed to `__free` is returned.
pub mod Update
pub mod Invariant
pub mod Keying
pub mod Remove
pub mod Push
pub mod Find
pub mod PushFind
pub mod Take
pub mod Upsert
pub mod Orphan
pub mod Reach
pub mod Balanced
pub mod Balance
pub mod Walk
pub mod NewIndex
pub mod AddKey
pub mod Until
pub mod GetOrInsert
mod Tests
use sipecho.Common.{
  ℕ, ◌+◌, Bool, true, false, ◌==◌, if◌then◌else◌, Option, none, some, List, [], ◌∷◌, ◌++◌, Ordering,
  get_elem?,
}
use sipecho.Tree.{Tree, nil}
use sipecho.Tree.Search.{tsearch2, tfind2}
use sipecho.Tree.Delete.{tdelete2}

-- `map_node_t`, by its address.
pub record Node (A : Type 0) : Type 0 where
  pub address : ℕ
  pub item : A

-- `map_index_t`: a comparison and the root of its tree.
pub record Index (A : Type 0) : Type 0 where
  pub cmp : A → A → Ordering
  pub root : Tree (Node A)

-- `map_t`; `max` is the length of `key`.
pub record Map (A : Type 0) : Type 0 where
  pub nodes : List (Node A)
  pub key : List (Index A)
  pub size : ℕ
  pub next : ℕ

-- What `map_key` returns: 0, the node that has the key already, or MAP_NODE_FAILURE.
pub data Keyed (A : Type 0) : Type 0 where
  indexed : Keyed A
  exists : Node A → Keyed A
  failure : Keyed A

module _ {A : Type 0} where
  -- `map_internal_cmp2`, `map_internal_cmp`: nodes compare by their items.
  abbrev pub node_cmp : (A → A → Ordering) → Node A → Node A → Ordering
  node_cmp cmp a b = cmp a.item b.item

  -- `map_create2` with the comparisons of its argument list.
  abbrev pub new_keys : List (A → A → Ordering) → List (Index A)
  new_keys [] = []
  new_keys (cmp ∷ cmps) = record { cmp = cmp; root = nil } ∷ new_keys cmps

  unfoldable pub map_new : List (A → A → Ordering) → Map A
  map_new cmps = record { nodes = []; key = new_keys cmps; size = 0; next = 0 }

  -- `map_init`
  unfoldable pub map_init : Map A
  map_init = record { nodes = []; key = []; size = 0; next = 0 }

  abbrev pub remove_leaf : Node A → Index A → Index A
  remove_leaf n k = record k { root = tdelete2 (node_cmp k.cmp) n k.root }

  -- The end of `map_key` at one index, from what the indices after it gave.
  abbrev pub settle_key : Node A → Index A → Keyed A × List (Index A) → Keyed A × List (Index A)
  settle_key n k (indexed, ks) = (indexed, k ∷ ks)
  settle_key n k (exists m, ks) = (failure, remove_leaf n k ∷ ks)
  settle_key n k (failure, ks) = (failure, remove_leaf n k ∷ ks)

  -- `map_key` from the index at the head of the list on.
  unfoldable pub map_key : Node A → List (Index A) → Keyed A × List (Index A)
  map_key n [] = (indexed, [])
  map_key n (k ∷ ks) =
      let found = tsearch2 (node_cmp k.cmp) n k.root in
      let k' : Index A = record k { root = found.1 } in
      let rest = settle_key n k' (map_key n ks) in
      if found.0.address == n.address then rest else (exists found.0, k' ∷ ks)

  -- `map_index`
  abbrev pub map_index : Map A → Node A → Keyed A × List (Index A)
  map_index m n = map_key n m.key

  -- The second half of `map_push`: `add` puts the node into the list.
  abbrev pub push_node :
      Map A → Node A → (List (Node A) → List (Node A)) → Keyed A × List (Index A) → Map A × Bool
  push_node m n add (indexed, ks) =
      (record { nodes = add m.nodes; key = ks; size = m.size + 1; next = m.next + 1 }, true)
  push_node m n add (exists _, ks) = (record m { key = ks; next = m.next + 1 }, false)
  push_node m n add (failure, ks) = (record m { key = ks; next = m.next + 1 }, false)

  -- `map_push`; true stands for 0 and false for -1. `none` is the null item.
  unfoldable pub map_push : Map A → Option A → Map A × Bool
  map_push m none = (m, false)
  map_push m (some a) =
      let n : Node A = record { address = m.next; item = a } in
      push_node m n (λ ns. n ∷ ns) (map_index m n)

  -- `map_push_back`
  unfoldable pub map_push_back : Map A → Option A → Map A × Bool
  map_push_back m none = (m, false)
  map_push_back m (some a) =
      let n : Node A = record { address = m.next; item = a } in
      push_node m n (λ ns. ns ++ (n ∷ [])) (map_index m n)

  -- `map_front`
  unfoldable pub map_front : Map A → Option A
  map_front m = front m.nodes
    where
      front : List (Node A) → Option A
      front [] = none
      front (n ∷ ns) = some n.item

  abbrev pub last : List (Node A) → Option (Node A)
  last [] = none
  last (n ∷ []) = some n
  last (n ∷ m ∷ ns) = last (m ∷ ns)

  abbrev pub item_of : Option (Node A) → Option A
  item_of none = none
  item_of (some n) = some n.item

  -- `map_back`
  unfoldable pub map_back : Map A → Option A
  map_back m = item_of (last m.nodes)

  -- `map_size`
  abbrev pub map_size : Map A → ℕ
  map_size m = m.size

  -- A search key: `map_node_t node = {.item = item}`, an address that `tfind2` never looks at.
  abbrev pub probe : Map A → A → Node A
  probe m a = record { address = m.next; item = a }

  -- `map_search`
  unfoldable pub map_search : Map A → A → ℕ → Option (Node A)
  map_search m a i = elim (get_elem? m.key i) [
    | none ↦ none
    | some k ↦ tfind2 (node_cmp k.cmp) (probe m a) k.root
  ]

  -- `map_find`
  unfoldable pub map_find : Map A → A → ℕ → Option A
  unfolding map_search
  map_find m a i = item_of (map_search m a i)
