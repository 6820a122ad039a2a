-- ===== src/Map/Upsert.antt =====
-- lib/common/map.c: `map_push_find`, insertion or update of an item. The nodes in the list and in
-- the trees are the same objects, so a change of a node's item is made in both.
use sipecho.Common.{ℕ, ◌+◌, Bool, false, ◌==◌, if◌then◌else◌, Option, none, some, List, ◌∷◌, map}
use sipecho.Tree.{Tree, nil, node}
use sipecho.Map.{Node, Index, Map, Keyed, indexed, exists, failure, map_index}
use sipecho.Map.Update.{unlink}

-- `map_cpy_t`: `fresh a` is `cpy(0, a, arg)`, which may be null; `update old a` is what
-- `cpy(old, a, arg)` makes of `old`, in place.
pub record Copy (A : Type 0) : Type 0 where
  pub fresh : A → Option A
  pub update : A → A → A

-- The bits of `map_flag_t`.
pub record Flag : Type 0 where
  pub insert : Bool
  pub update : Bool
  pub shift : Bool

pub record PushFound (A : Type 0) : Type 0 where
  pub after : Map A
  pub answer : Option A
  pub flag : Option Flag

-- `flag[0] &= map_flag_insert`
abbrev pub mask : Option Flag → Option Flag
mask none = none
mask (some f) = some (record { insert = f.insert; update = false; shift = false })

module _ {A : Type 0} where
  abbrev pub set_item : ℕ → A → Node A → Node A
  set_item p a n = if n.address == p then record n { item = a } else n

  abbrev pub set_tree : ℕ → A → Tree (Node A) → Tree (Node A)
  set_tree p a nil = nil
  set_tree p a (node red l x r) = node red (set_tree p a l) (set_item p a x) (set_tree p a r)

  -- The store with a new item in the node of an address.
  abbrev pub assign : ℕ → A → Map A → Map A
  assign p a m = record m {
    nodes = map (set_item p a) m.nodes;
    key = map (λ (k : Index A). record k { root = set_tree p a k.root }) m.key;
  }

  abbrev pub copy_in : Option (Copy A) → A → Option A
  copy_in none a = some a
  copy_in (some c) a = c.fresh a

  abbrev pub inserted : Map A → Node A → Option A → Option Flag → PushFound A
  inserted m n none flag = record { after = m; answer = none; flag = flag }
  inserted m n (some b) flag =
      let m' = assign n.address b m in
      record {
        after = record m' { nodes = record n { item = b } ∷ m'.nodes; size = m.size + 1 };
        answer = some b;
        flag = mask flag;
      }

  abbrev pub updated : Option (Copy A) → Flag → Node A → A → A
  updated none f x a = x.item
  updated (some c) f x a = if f.update then c.update x.item a else x.item

  abbrev pub shifted : Flag → Node A → Map A → Map A
  shifted f x m = if f.shift then record m { nodes = x ∷ unlink x.address m.nodes } else m

  abbrev pub found_again : Map A → Node A → A → Option (Copy A) → Option Flag → PushFound A
  found_again m x a cpy none = record { after = m; answer = some x.item; flag = none }
  found_again m x a cpy (some f) =
      let b = updated cpy f x a in
      record {
        after = shifted f (record x { item = b }) (assign x.address b m);
        answer = some b;
        flag = some f;
      }

  abbrev pub push_found :
      Map A → Node A → A → Option (Copy A) → Option Flag → Keyed A × List (Index A) → PushFound A
  push_found m n a cpy flag (indexed, ks) =
      inserted (record m { key = ks; next = m.next + 1 }) n (copy_in cpy a) flag
  push_found m n a cpy flag (exists x, ks) =
      found_again (record m { key = ks; next = m.next + 1 }) x a cpy flag
  push_found m n a cpy flag (failure, ks) = record {
    after = record m { key = ks; next = m.next + 1 };
    answer = none;
    flag = flag;
  }

  unfoldable pub map_push_find : Map A → Option A → Option (Copy A) → Option Flag → PushFound A
  map_push_find m none cpy flag = record { after = m; answer = none; flag = flag }
  map_push_find m (some a) cpy flag =
      let n : Node A = record { address = m.next; item = a } in
      push_found m n a cpy flag (map_index m n)
