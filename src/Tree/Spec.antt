-- ===== src/Tree/Spec.antt =====
-- What a search tree stands for: the list of its keys in order, and the same operations on that
-- list. `IsOrder` is what a comparison function has to satisfy, for `map_cmp_t` functions.
use sipecho.Common.{List, [], ◌∷◌, ◌++◌, ◌≡◌, Option, none, some, Ordering}
use sipecho.Tree.{Tree, nil, node, Frame, in_left, in_right}

abbrev pub opposite : Ordering → Ordering
opposite Ordering.lt = Ordering.gt
opposite Ordering.eq = Ordering.eq
opposite Ordering.gt = Ordering.lt

pub record IsOrder {A : Type 0} (cmp : A → A → Ordering) : Type 0 where
  pub flip : (a b : A) → cmp b a ≡ opposite (cmp a b)
  pub same : (a b c : A) → cmp a b ≡ Ordering.eq → cmp a c ≡ cmp b c
  pub lt_trans : (a b c : A) → cmp a b ≡ Ordering.lt → cmp b c ≡ Ordering.lt → cmp a c ≡ Ordering.lt

module _ {A : Type 0} where
  abbrev pub inorder : Tree A → List A
  inorder nil = []
  inorder (node red l x r) = inorder l ++ (x ∷ inorder r)

  -- The keys that stand before, and after, the slot at the end of a path.
  abbrev pub lefts : List (Frame A) → List A
  lefts [] = []
  lefts (in_left red x r ∷ p) = lefts p
  lefts (in_right red l x ∷ p) = lefts p ++ (inorder l ++ (x ∷ []))

  abbrev pub rights : List (Frame A) → List A
  rights [] = []
  rights (in_left red x r ∷ p) = x ∷ (inorder r ++ rights p)
  rights (in_right red l x ∷ p) = rights p

module _ {A : Type 0} (cmp : A → A → Ordering) where
  -- Every key of the list compares so with `k`.
  abbrev pub AllCompare : A → Ordering → List A → Type 0
  AllCompare k o [] = Unit
  AllCompare k o (x ∷ xs) = (cmp k x ≡ o) × AllCompare k o xs

  -- Strictly increasing: each key is less than all that follow it.
  abbrev pub IsSorted : List A → Type 0
  IsSorted [] = Unit
  IsSorted (x ∷ xs) = AllCompare x Ordering.lt xs × IsSorted xs

  -- Insertion into a sorted list; an equal key is kept.
  unfoldable pub insert : A → List A → List A
  insert k [] = k ∷ []
  insert k (x ∷ xs) = elim (cmp k x) [
    | Ordering.lt ↦ k ∷ x ∷ xs
    | Ordering.eq ↦ x ∷ xs
    | Ordering.gt ↦ x ∷ insert k xs
  ]

  -- The first key that compares equal.
  unfoldable pub find : A → List A → Option A
  find k [] = none
  find k (x ∷ xs) = elim (cmp k x) [
    | Ordering.lt ↦ find k xs
    | Ordering.eq ↦ some x
    | Ordering.gt ↦ find k xs
  ]

  -- The list without the first key that compares equal.
  unfoldable pub erase : A → List A → List A
  erase k [] = []
  erase k (x ∷ xs) = elim (cmp k x) [
    | Ordering.lt ↦ x ∷ erase k xs
    | Ordering.eq ↦ xs
    | Ordering.gt ↦ x ∷ erase k xs
  ]
