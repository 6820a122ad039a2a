-- ===== src/Map/Invariant.antt =====
-- What holds of a map between two operations: each search tree holds exactly the nodes of the
-- list, in the strict order of its comparison.
use sipecho.Common.{ℕ, ◌<◌, List, [], ◌∷◌, ◌≡◌, ◌≢◌, ◌⊎◌, Ordering, In, length, map}
use sipecho.Tree.Spec.{IsOrder, IsSorted, inorder}
use sipecho.Map.{Node, Index, Map, node_cmp}

module _ {A : Type 0} where
  pub record IsIndex (nodes : List (Node A)) (k : Index A) : Type 0 where
    pub order : IsOrder k.cmp
    pub sorted : IsSorted (node_cmp k.cmp) (inorder k.root)
    pub sound : (n : Node A) → In n (inorder k.root) → In n nodes
    pub complete : (n : Node A) → In n nodes → In n (inorder k.root)

  abbrev pub AllIndex : List (Node A) → List (Index A) → Type 0
  AllIndex nodes [] = Unit
  AllIndex nodes (k ∷ ks) = IsIndex nodes k × AllIndex nodes ks

  -- The comparisons of the indices, in their order.
  abbrev pub cmps_of : List (Index A) → List (A → A → Ordering)
  cmps_of ks = map (λ k. k.cmp) ks

  -- Every address of the list is below a bound.
  abbrev pub Below : ℕ → List (Node A) → Type 0
  Below p [] = Unit
  Below p (n ∷ ns) = (n.address < p) × Below p ns

  abbrev pub Unused : ℕ → List (Node A) → Type 0
  Unused p [] = Unit
  Unused p (n ∷ ns) = (n.address ≢ p) × Unused p ns

  abbrev pub Distinct : List (Node A) → Type 0
  Distinct [] = Unit
  Distinct (n ∷ ns) = Unused n.address ns × Distinct ns

  pub record IsMap (m : Map A) : Type 0 where
    pub keyed : AllIndex m.nodes m.key
    pub sized : m.size ≡ length m.nodes
    pub fresh : Below m.next m.nodes
    pub distinct : Distinct m.nodes

  -- No node of the list, or some node, compares equal to `a` by a comparison.
  abbrev pub NoEqual : (A → A → Ordering) → A → List (Node A) → Type 0
  NoEqual cmp a nodes = (n : Node A) → In n nodes → cmp a n.item ≢ Ordering.eq

  abbrev pub Equal : (A → A → Ordering) → A → List (Node A) → Type 0
  Equal cmp a nodes = (n : Node A) × In n nodes × (cmp a n.item ≡ Ordering.eq)

  -- The same for all indices of a map.
  abbrev pub IsNew : A → List (Node A) → List (Index A) → Type 0
  IsNew a nodes [] = Unit
  IsNew a nodes (k ∷ ks) = NoEqual k.cmp a nodes × IsNew a nodes ks

  abbrev pub IsTaken : A → List (Node A) → List (Index A) → Type 0
  IsTaken a nodes [] = ⊥
  IsTaken a nodes (k ∷ ks) = Equal k.cmp a nodes ⊎ IsTaken a nodes ks
