-- ===== src/Map/NewIndex.antt =====
-- lib/common/map.c: `map_add_key`, a new index over the items that a map has already, and the
-- destruction of a tree, which it calls where an item cannot be put into the new index.
use sipecho.Common.{
  Bool, true, false, if◌then◌else◌, Option, none, some, List, [], ◌∷◌, ◌++◌, Ordering,
}
use sipecho.Tree.{Tree, nil, node}
use sipecho.Map.{Node, Index, Map, indexed, exists, failure, new_keys, map_key}

-- What C leaves undefined: the code of a function is read as a node, or a null function is called.
pub data Fault : Type 0 where
  code_as_node null_call : Fault

pub data Outcome (B : Type 0) : Type 0 where
  finished : B → Outcome B
  faulted : Fault → Outcome B

-- A pointer that is taken for one to a node: null, one to a node of a tree, or one to the field
-- `root` of an entry of `map->key`.
pub data Pointer (A : Type 0) : Type 0 where
  null : Pointer A
  to_node : Bool → Tree (Node A) → Node A → Tree (Node A) → Pointer A
  to_root_of : Index A → Pointer A

module _ {A : Type 0} where
  -- The end of `tdestroy_recurse`: `(*freefct)(root->key)`; what is freed is its result.
  abbrev freed_last :
      Bool → Node A → Outcome (List (Node A)) → Outcome (List (Node A)) → Outcome (List (Node A))
  freed_last free x (faulted f) r = faulted f
  freed_last free x (finished xs) (faulted f) = faulted f
  freed_last free x (finished xs) (finished ys) =
      if free then finished (xs ++ (ys ++ (x ∷ []))) else faulted null_call

  -- `tdestroy_recurse` on a tree, after the test for null; `free` says whether `freefct` is not null.
  abbrev pub tdestroy_tree : Bool → Tree (Node A) → Outcome (List (Node A))
  tdestroy_tree free nil = finished []
  tdestroy_tree free (node red l x r) =
      freed_last free x (tdestroy_tree free l) (tdestroy_tree free r)

  -- `tdestroy_recurse` where `root` is the address of a comparison: its first step reads `left` in
  -- the code of a function.
  abbrev pub tdestroy_code : (A → A → Ordering) → Outcome (List (Node A))
  tdestroy_code cmp = faulted code_as_node

  -- `tdestroy2`. The word behind `root` in an entry of `map->key`, where a node has `left`, is the
  -- entry's comparison, which is not null: `tdestroy_recurse` goes there first.
  unfoldable pub tdestroy2 : Pointer A → Bool → Outcome (List (Node A))
  tdestroy2 null free = finished []
  tdestroy2 (to_node red l x r) free = tdestroy_tree free (node red l x r)
  tdestroy2 (to_root_of k) free = tdestroy_code k.cmp

  -- The loop of `map_add_key`, from the front of the list: whether every node gets into the new
  -- index, and that index alone.
  unfoldable pub key_all : List (Node A) → List (Index A) → Bool × List (Index A)
  unfolding map_key
  key_all [] ks = (true, ks)
  key_all (n ∷ ns) ks =
      let o = map_key n ks in
      let rest = key_all ns o.1 in
      elim o.0 [ indexed ↦ rest | exists x ↦ (false, o.1) | failure ↦ (false, o.1) ]

  -- `&map->key[map->max].root`
  abbrev pub root_of : List (Index A) → Pointer A
  root_of [] = null
  root_of (k ∷ ks) = to_root_of k

  -- `-1` after a destruction that ends.
  abbrev pub refused : Map A → Outcome (List (Node A)) → Outcome (Map A × Bool)
  refused m (finished freed) = finished (m, false)
  refused m (faulted f) = faulted f

  abbrev pub with_keys : Map A → Bool × List (Index A) → Outcome (Map A × Bool)
  unfolding tdestroy2
  with_keys m (true, ks) = finished (record m { key = m.key ++ ks }, true)
  with_keys m (false, ks) = refused m (tdestroy2 (root_of ks) false)

  -- `map_add_key`; true stands for 0 and false for -1.
  unfoldable pub map_add_key : Map A → Option (A → A → Ordering) → Outcome (Map A × Bool)
  unfolding key_all
  map_add_key m none = finished (m, false)
  map_add_key m (some cmp) = with_keys m (key_all m.nodes (new_keys (cmp ∷ [])))
