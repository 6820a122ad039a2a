-- ===== src/Tree/Order.antt =====
-- Lists of keys under a comparison: how insertion, lookup and erasure act on `l ++ x ∷ r`.
use sipecho.Common.{
  List, [], ◌∷◌, ◌++◌, ◌≡◌, ◌∙◌, refl, ap, none, some, Ordering, arith, ◌⊎◌, inl, inr,
}
use sipecho.Tree.Spec.{IsOrder, AllCompare, IsSorted, insert, find, erase}

-- To split on a computed comparison and keep the equation.
pub Ordering-cases : (o : Ordering) → (o ≡ Ordering.lt) ⊎ ((o ≡ Ordering.eq) ⊎ (o ≡ Ordering.gt))
Ordering-cases Ordering.lt = inl refl
Ordering-cases Ordering.eq = inr (inl refl)
Ordering-cases Ordering.gt = inr (inr refl)

module _ {A : Type 0} (cmp : A → A → Ordering) where
  pub AllCompare-append :
      (k : A) (o : Ordering) (xs ys : List A)
      → AllCompare cmp k o (xs ++ ys)
      → AllCompare cmp k o xs × AllCompare cmp k o ys
  AllCompare-append k o [] ys h = (tt, h)
  AllCompare-append k o (x ∷ xs) ys h =
      let (a, b) = AllCompare-append k o xs ys h.1 in ((h.0, a), b)

  pub append-AllCompare :
      (k : A) (o : Ordering) (xs ys : List A)
      → AllCompare cmp k o xs
      → AllCompare cmp k o ys
      → AllCompare cmp k o (xs ++ ys)
  append-AllCompare k o [] ys h g = g
  append-AllCompare k o (x ∷ xs) ys h g = (h.0, append-AllCompare k o xs ys h.1 g)

  pub IsSorted-append :
      (xs ys : List A) → IsSorted cmp (xs ++ ys) → IsSorted cmp xs × IsSorted cmp ys
  IsSorted-append [] ys h = (tt, h)
  IsSorted-append (x ∷ xs) ys h =
      let (a, b) = IsSorted-append xs ys h.1 in
      (((AllCompare-append x Ordering.lt xs ys h.0).0, a), b)

module _ {A : Type 0} {cmp : A → A → Ordering} (ord : IsOrder cmp) where
  -- What lies after a key that is greater than `k`, is greater than `k`.
  pub lt-AllCompare :
      (k x : A) (ys : List A)
      → cmp k x ≡ Ordering.lt
      → AllCompare cmp x Ordering.lt ys
      → AllCompare cmp k Ordering.lt ys
  lt-AllCompare k x [] h g = tt
  lt-AllCompare k x (y ∷ ys) h g = (ord.lt_trans k x y h g.0, lt-AllCompare k x ys h g.1)

  pub eq-AllCompare :
      (k x : A) (ys : List A)
      → cmp k x ≡ Ordering.eq
      → AllCompare cmp x Ordering.lt ys
      → AllCompare cmp k Ordering.lt ys
  eq-AllCompare k x [] h g = tt
  eq-AllCompare k x (y ∷ ys) h g = (ord.same k x y h ∙ g.0, eq-AllCompare k x ys h g.1)

  pub gt_of_lt : (a b : A) → cmp a b ≡ Ordering.lt → cmp b a ≡ Ordering.gt
  gt_of_lt a b h = rw (ord.flip a b, h)

  pub lt_of_gt : (a b : A) → cmp a b ≡ Ordering.gt → cmp b a ≡ Ordering.lt
  lt_of_gt a b h = rw (ord.flip a b, h)

  -- What lies before a key that is not greater than `k`, is less than `k`.
  pub AllCompare-before :
      (k x : A) (l r : List A)
      → IsSorted cmp (l ++ (x ∷ r))
      → (cmp k x ≡ Ordering.gt) ⊎ (cmp k x ≡ Ordering.eq)
      → AllCompare cmp k Ordering.gt l
  AllCompare-before k x [] r s h = tt
  AllCompare-before k x (y ∷ l) r s h = (below h, AllCompare-before k x l r s.1 h)
    where
      y_lt_x : cmp y x ≡ Ordering.lt
      y_lt_x = (AllCompare-append cmp y Ordering.lt l (x ∷ r) s.0).1.0

      below : (cmp k x ≡ Ordering.gt) ⊎ (cmp k x ≡ Ordering.eq) → cmp k y ≡ Ordering.gt
      below (inl g) = gt_of_lt y k (ord.lt_trans y x k y_lt_x (lt_of_gt k x g))
      below (inr e) = ord.same k x y e ∙ gt_of_lt y x y_lt_x

  pub IsSorted-after :
      (x : A) (l r : List A) → IsSorted cmp (l ++ (x ∷ r)) → AllCompare cmp x Ordering.lt r
  IsSorted-after x l r s = (IsSorted-append cmp l (x ∷ r) s).1.0

-- The three operations on `l ++ x ∷ r` go to the side that the comparison with `x` tells.
module _ {A : Type 0} (cmp : A → A → Ordering) where
  insert-append-gt :
      (k : A) (l r : List A)
      → AllCompare cmp k Ordering.gt l
      → insert cmp k (l ++ r) ≡ l ++ insert cmp k r
  unfolding insert
  insert-append-gt k [] r h = refl
  insert-append-gt k (y ∷ l) r h = rw (h.0) (ap (◌∷◌ y) (insert-append-gt k l r h.1))

  pub find-append-gt :
      (k : A) (l r : List A) → AllCompare cmp k Ordering.gt l → find cmp k (l ++ r) ≡ find cmp k r
  unfolding find
  find-append-gt k [] r h = refl
  find-append-gt k (y ∷ l) r h = rw (h.0) (find-append-gt k l r h.1)

  pub erase-append-gt :
      (k : A) (l r : List A)
      → AllCompare cmp k Ordering.gt l
      → erase cmp k (l ++ r) ≡ l ++ erase cmp k r
  unfolding erase
  erase-append-gt k [] r h = refl
  erase-append-gt k (y ∷ l) r h = rw (h.0) (ap (◌∷◌ y) (erase-append-gt k l r h.1))

  pub find-lt : (k : A) (l : List A) → AllCompare cmp k Ordering.lt l → find cmp k l ≡ none
  unfolding find
  find-lt k [] h = refl
  find-lt k (y ∷ l) h = rw (h.0, find) (find-lt k l h.1)

  pub erase-lt : (k : A) (l : List A) → AllCompare cmp k Ordering.lt l → erase cmp k l ≡ l
  unfolding erase
  erase-lt k [] h = refl
  erase-lt k (y ∷ l) h = rw (h.0, erase) (ap (◌∷◌ y) (erase-lt k l h.1))

  pub insert-append-lt :
      (k x : A) (l r : List A)
      → cmp k x ≡ Ordering.lt
      → insert cmp k (l ++ (x ∷ r)) ≡ insert cmp k l ++ (x ∷ r)
  unfolding insert
  insert-append-lt k x [] r h = rw h
  insert-append-lt k x (y ∷ l) r h = ground (arith, insert-append-lt k x l r h)

  pub find-append-lt :
      (k x : A) (l r : List A)
      → cmp k x ≡ Ordering.lt
      → AllCompare cmp k Ordering.lt r
      → find cmp k (l ++ (x ∷ r)) ≡ find cmp k l
  unfolding find
  find-append-lt k x [] r h g = rw h (find-lt k r g)
  find-append-lt k x (y ∷ l) r h g = ground (arith, find-append-lt k x l r h g)

  pub erase-append-lt :
      (k x : A) (l r : List A)
      → cmp k x ≡ Ordering.lt
      → AllCompare cmp k Ordering.lt r
      → erase cmp k (l ++ (x ∷ r)) ≡ erase cmp k l ++ (x ∷ r)
  unfolding erase
  erase-append-lt k x [] r h g = rw h (ap (◌∷◌ x) (erase-lt k r g))
  erase-append-lt k x (y ∷ l) r h g = ground (arith, erase-append-lt k x l r h g)

-- The same with the order of the whole list, for each outcome of the comparison with `x`.
module _ {A : Type 0} {cmp : A → A → Ordering} (ord : IsOrder cmp) where
  module _ (k x : A) (l r : List A) (s : IsSorted cmp (l ++ (x ∷ r))) where
    pub insert-eq : cmp k x ≡ Ordering.eq → insert cmp k (l ++ (x ∷ r)) ≡ l ++ (x ∷ r)
    unfolding insert
    insert-eq e =
        rw (insert-append-gt cmp k l (x ∷ r) (AllCompare-before ord k x l r s (inr e)), e, insert)

    pub insert-gt : cmp k x ≡ Ordering.gt → insert cmp k (l ++ (x ∷ r)) ≡ l ++ (x ∷ insert cmp k r)
    unfolding insert
    insert-gt e =
        rw (insert-append-gt cmp k l (x ∷ r) (AllCompare-before ord k x l r s (inl e)), e, insert)

    pub find-eq : cmp k x ≡ Ordering.eq → find cmp k (l ++ (x ∷ r)) ≡ some x
    unfolding find
    find-eq e =
        rw (find-append-gt cmp k l (x ∷ r) (AllCompare-before ord k x l r s (inr e)), e, find)

    pub find-gt : cmp k x ≡ Ordering.gt → find cmp k (l ++ (x ∷ r)) ≡ find cmp k r
    unfolding find
    find-gt e =
        rw (find-append-gt cmp k l (x ∷ r) (AllCompare-before ord k x l r s (inl e)), e, find)

    pub find-lt_side : cmp k x ≡ Ordering.lt → find cmp k (l ++ (x ∷ r)) ≡ find cmp k l
    find-lt_side e =
        find-append-lt cmp k x l r e (lt-AllCompare ord k x r e (IsSorted-after ord x l r s))

    pub erase-eq : cmp k x ≡ Ordering.eq → erase cmp k (l ++ (x ∷ r)) ≡ l ++ r
    unfolding erase
    erase-eq e =
        rw (erase-append-gt cmp k l (x ∷ r) (AllCompare-before ord k x l r s (inr e)), e, erase)

    pub erase-gt : cmp k x ≡ Ordering.gt → erase cmp k (l ++ (x ∷ r)) ≡ l ++ (x ∷ erase cmp k r)
    unfolding erase
    erase-gt e =
        rw (erase-append-gt cmp k l (x ∷ r) (AllCompare-before ord k x l r s (inl e)), e, erase)

    pub erase-lt_side :
        cmp k x ≡ Ordering.lt → erase cmp k (l ++ (x ∷ r)) ≡ erase cmp k l ++ (x ∷ r)
    erase-lt_side e =
        erase-append-lt cmp k x l r e (lt-AllCompare ord k x r e (IsSorted-after ord x l r s))
