-- ===== src/Map/Balanced.antt =====
-- Each operation of lib/common/map.c keeps the search trees of a map balanced.
use sipecho.Common.{
  ℕ, zero, suc, ◌+◌, Bool, true, false, ◌==◌, List, [], ◌∷◌, ◌++◌, refl, Option, none, some, map,
  Ordering, Bool-cases, Option-cases, inl, inr,
}
use sipecho.Tree.{Tree, nil, node}
use sipecho.Tree.Search.{tsearch2}
use sipecho.Tree.Balance.{Balanced, IsBalanced}
use sipecho.Tree.Balance.Insert.{tsearch2-IsBalanced}
use sipecho.Tree.Balance.Delete.{tdelete2-IsBalanced}
use sipecho.Map.{
  Node, Index, Map, node_cmp, Keyed, indexed, exists, failure, new_keys, remove_leaf, settle_key,
  map_key, push_node, map_push, map_push_back,
}
use sipecho.Map.Update.{map_remove, remove_some, remove_while}
use sipecho.Map.Upsert.{
  Copy, Flag, set_tree, assign, copy_in, inserted, updated, shifted, found_again, push_found,
  map_push_find,
}

module _ {A : Type 0} where
  abbrev pub AllBalanced : List (Index A) → Type 0
  AllBalanced [] = Unit
  AllBalanced (k ∷ ks) = IsBalanced k.root × AllBalanced ks

  -- Every search tree of the map is balanced.
  abbrev pub MapIsBalanced : Map A → Type 0
  MapIsBalanced m = AllBalanced m.key

  pub new_keys-AllBalanced : (cmps : List (A → A → Ordering)) → AllBalanced (new_keys cmps)
  new_keys-AllBalanced [] = tt
  new_keys-AllBalanced (cmp ∷ cmps) = ((0, refl), new_keys-AllBalanced cmps)

  pub AllBalanced-append :
      (ks ks' : List (Index A)) → AllBalanced ks → AllBalanced ks' → AllBalanced (ks ++ ks')
  AllBalanced-append [] ks' v w = w
  AllBalanced-append (k ∷ ks) ks' v w = (v.0, AllBalanced-append ks ks' v.1 w)

  pub remove_leaf-AllBalanced :
      (n : Node A) (ks : List (Index A)) → AllBalanced ks → AllBalanced (map (remove_leaf n) ks)
  remove_leaf-AllBalanced n [] v = tt
  remove_leaf-AllBalanced n (k ∷ ks) v =
      (tdelete2-IsBalanced (node_cmp k.cmp) n k.root v.0, remove_leaf-AllBalanced n ks v.1)

  settle_key-AllBalanced :
      (n : Node A) (k : Index A) (o : Keyed A × List (Index A))
      → IsBalanced k.root
      → AllBalanced o.1
      → AllBalanced (settle_key n k o).1
  settle_key-AllBalanced n k (indexed, ks) b v = (b, v)
  settle_key-AllBalanced n k (exists m, ks) b v =
      (tdelete2-IsBalanced (node_cmp k.cmp) n k.root b, v)
  settle_key-AllBalanced n k (failure, ks) b v =
      (tdelete2-IsBalanced (node_cmp k.cmp) n k.root b, v)

  pub map_key-AllBalanced :
      (n : Node A) (ks : List (Index A)) → AllBalanced ks → AllBalanced (map_key n ks).1
  unfolding map_key
  map_key-AllBalanced n [] v = tt
  map_key-AllBalanced n (k ∷ ks) v =
      let b = tsearch2-IsBalanced (node_cmp k.cmp) n k.root v.0 in
      elim (Bool-cases ((tsearch2 (node_cmp k.cmp) n k.root).0.address == n.address)) [
        | inl e ↦ rw e (
            settle_key-AllBalanced n (record k { root = (tsearch2 (node_cmp k.cmp) n k.root).1 })
              (map_key n ks) b (map_key-AllBalanced n ks v.1))
        | inr e ↦ rw e (b, v.1)
      ]

  pub push_node-AllBalanced :
      (m : Map A) (n : Node A) (add : List (Node A) → List (Node A)) (o : Keyed A × List (Index A))
      → AllBalanced o.1
      → MapIsBalanced (push_node m n add o).0
  push_node-AllBalanced m n add (indexed, ks) v = v
  push_node-AllBalanced m n add (exists x, ks) v = v
  push_node-AllBalanced m n add (failure, ks) v = v

  pub map_remove-AllBalanced :
      (m : Map A) (n : Node A) → MapIsBalanced m → MapIsBalanced (map_remove m n).0
  unfolding map_remove
  map_remove-AllBalanced m n v = remove_leaf-AllBalanced n m.key v

  pub remove_some-AllBalanced :
      (m : Map A) (o : Option (Node A)) → MapIsBalanced m → MapIsBalanced (remove_some m o).0
  remove_some-AllBalanced m none v = v
  remove_some-AllBalanced m (some n) v = map_remove-AllBalanced m n v

  -- A write through the pointer of a node moves no node.
  set_tree-Balanced :
      (p : ℕ) (a : A) (above : Bool) (n : ℕ) (t : Tree (Node A))
      → Balanced above n t
      → Balanced above n (set_tree p a t)
  set_tree-Balanced p a above n nil h = h
  set_tree-Balanced p a above n (node true l x r) h =
      (h.0, set_tree-Balanced p a true n l h.1, set_tree-Balanced p a true n r h.2)
  set_tree-Balanced p a above zero (node false l x r) h = absurd h
  set_tree-Balanced p a above (suc n) (node false l x r) h =
      (set_tree-Balanced p a false n l h.0, set_tree-Balanced p a false n r h.1)

  pub assign-AllBalanced :
      (p : ℕ) (a : A) (ks : List (Index A))
      → AllBalanced ks
      → AllBalanced (map (λ (k : Index A). record k { root = set_tree p a k.root }) ks)
  assign-AllBalanced p a [] v = tt
  assign-AllBalanced p a (k ∷ ks) v =
      ((v.0.0, set_tree-Balanced p a false v.0.0 k.root v.0.1), assign-AllBalanced p a ks v.1)

  inserted-AllBalanced :
      (m : Map A) (n : Node A) (o : Option A) (flag : Option Flag)
      → MapIsBalanced m
      → MapIsBalanced (inserted m n o flag).after
  inserted-AllBalanced m n none flag v = v
  inserted-AllBalanced m n (some b) flag v = assign-AllBalanced n.address b m.key v

  shifted-AllBalanced :
      (f : Flag) (x : Node A) (m : Map A) → MapIsBalanced m → MapIsBalanced (shifted f x m)
  shifted-AllBalanced f x m v = elim (Bool-cases f.shift) [ inl e ↦ rw e v | inr e ↦ rw e v ]

  found_again-AllBalanced :
      (m : Map A) (x : Node A) (a : A) (cpy : Option (Copy A)) (flag : Option Flag)
      → MapIsBalanced m
      → MapIsBalanced (found_again m x a cpy flag).after
  found_again-AllBalanced m x a cpy none v = v
  found_again-AllBalanced m x a cpy (some f) v =
      shifted-AllBalanced f (record x { item = updated cpy f x a })
        (assign x.address (updated cpy f x a) m)
        (assign-AllBalanced x.address (updated cpy f x a) m.key v)

  push_found-AllBalanced :
      (m : Map A) (n : Node A) (a : A) (cpy : Option (Copy A)) (flag : Option Flag)
      (o : Keyed A × List (Index A))
      → AllBalanced o.1
      → MapIsBalanced (push_found m n a cpy flag o).after
  push_found-AllBalanced m n a cpy flag (indexed, ks) v =
      inserted-AllBalanced (record m { key = ks; next = m.next + 1 }) n (copy_in cpy a) flag v
  push_found-AllBalanced m n a cpy flag (exists x, ks) v =
      found_again-AllBalanced (record m { key = ks; next = m.next + 1 }) x a cpy flag v
  push_found-AllBalanced m n a cpy flag (failure, ks) v = v

  abbrev new_node : Map A → A → Node A
  new_node m a = record { address = m.next; item = a }

  pub map_push_find-AllBalanced :
      (m : Map A) (o : Option A) (cpy : Option (Copy A)) (flag : Option Flag)
      → MapIsBalanced m
      → MapIsBalanced (map_push_find m o cpy flag).after
  unfolding map_push_find
  map_push_find-AllBalanced m none cpy flag v = v
  map_push_find-AllBalanced m (some a) cpy flag v =
      push_found-AllBalanced m (new_node m a) a cpy flag (map_key (new_node m a) m.key)
        (map_key-AllBalanced (new_node m a) m.key v)

  pub map_push-AllBalanced :
      (m : Map A) (o : Option A) → MapIsBalanced m → MapIsBalanced (map_push m o).0
  unfolding map_push
  map_push-AllBalanced m none v = v
  map_push-AllBalanced m (some a) v =
      push_node-AllBalanced m (new_node m a) (λ ns. new_node m a ∷ ns)
        (map_key (new_node m a) m.key) (map_key-AllBalanced (new_node m a) m.key v)

  pub map_push_back-AllBalanced :
      (m : Map A) (o : Option A) → MapIsBalanced m → MapIsBalanced (map_push_back m o).0
  unfolding map_push_back
  map_push_back-AllBalanced m none v = v
  map_push_back-AllBalanced m (some a) v =
      push_node-AllBalanced m (new_node m a) (λ ns. ns ++ (new_node m a ∷ []))
        (map_key (new_node m a) m.key) (map_key-AllBalanced (new_node m a) m.key v)

  -- The loops of `map_erase` and `map_until`.
  pub remove_while-AllBalanced :
      (rounds : ℕ) (pick : List (Node A) → Option (Node A)) (m : Map A)
      → MapIsBalanced m
      → MapIsBalanced (remove_while rounds pick m).0
  unfolding remove_while
  remove_while-AllBalanced zero pick m v = v
  remove_while-AllBalanced (suc rounds) pick m v = elim (Option-cases (pick m.nodes)) [
    | inl e ↦ rw (e, remove_while) v
    | inr (n, e) ↦
        rw (e, remove_while)
          (remove_while-AllBalanced rounds pick (map_remove m n).0 (map_remove-AllBalanced m n v))
  ]
