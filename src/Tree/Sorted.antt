-- ===== src/Tree/Sorted.antt =====
-- Sorted lists of keys: insertion and erasure keep them sorted, and what they hold afterwards.
use sipecho.Common.{List, [], ◌∷◌, ◌≡◌, ◌∙◌, inl, inr, sym, ap, some, Ordering, arith, In}
use sipecho.Tree.Spec.{IsOrder, AllCompare, IsSorted, insert, find, erase}
use sipecho.Tree.Order.{Ordering-cases, gt_of_lt, lt_of_gt, lt-AllCompare}

module _ {A : Type 0} (cmp : A → A → Ordering) where
  pub AllCompare-In :
      (k : A) (o : Ordering) (xs : List A) (x : A) → AllCompare cmp k o xs → In x xs → cmp k x ≡ o
  AllCompare-In k o [] x h m = absurd m
  AllCompare-In k o (y ∷ xs) x h (inl e) = rw e h.0
  AllCompare-In k o (y ∷ xs) x h (inr m) = AllCompare-In k o xs x h.1 m

  AllCompare-insert :
      (y k : A) (o : Ordering) (xs : List A)
      → cmp y k ≡ o
      → AllCompare cmp y o xs
      → AllCompare cmp y o (insert cmp k xs)
  unfolding insert
  AllCompare-insert y k o [] e h = (e, tt)
  AllCompare-insert y k o (x ∷ xs) e h = elim (Ordering-cases (cmp k x)) [
    | inl c ↦ rw (c, insert) (e, h)
    | inr (inl c) ↦ rw (c, insert) h
    | inr (inr c) ↦ rw (c, insert) (h.0, AllCompare-insert y k o xs e h.1)
  ]

  AllCompare-erase :
      (y k : A) (o : Ordering) (xs : List A)
      → AllCompare cmp y o xs
      → AllCompare cmp y o (erase cmp k xs)
  unfolding erase
  AllCompare-erase y k o [] h = tt
  AllCompare-erase y k o (x ∷ xs) h = elim (Ordering-cases (cmp k x)) [
    | inl c ↦ rw (c, erase) (h.0, AllCompare-erase y k o xs h.1)
    | inr (inl c) ↦ rw (c, erase) h.1
    | inr (inr c) ↦ rw (c, erase) (h.0, AllCompare-erase y k o xs h.1)
  ]

  pub erase-IsSorted : (k : A) (xs : List A) → IsSorted cmp xs → IsSorted cmp (erase cmp k xs)
  unfolding erase
  erase-IsSorted k [] s = tt
  erase-IsSorted k (x ∷ xs) s = elim (Ordering-cases (cmp k x)) [
    | inl c ↦ rw (c, erase) (AllCompare-erase x k Ordering.lt xs s.0, erase-IsSorted k xs s.1)
    | inr (inl c) ↦ rw (c, erase) s.1
    | inr (inr c) ↦ rw (c, erase) (AllCompare-erase x k Ordering.lt xs s.0, erase-IsSorted k xs s.1)
  ]

  -- What a search finds is in the list and compares equal.
  pub find-In : (k x : A) (xs : List A) → find cmp k xs ≡ some x → In x xs × (cmp k x ≡ Ordering.eq)
  unfolding find
  find-In k x [] h = cc
  find-In k x (y ∷ xs) h = elim (Ordering-cases (cmp k y)) [
    | inl c ↦ let (a, b) = find-In k x xs (rw (c, find) at h) in (inr a, b)
    | inr (inl c) ↦ ground arith
    | inr (inr c) ↦ let (a, b) = find-In k x xs (rw (c, find) at h) in (inr a, b)
  ]

module _ {A : Type 0} {cmp : A → A → Ordering} (ord : IsOrder cmp) where
  pub insert-IsSorted : (k : A) (xs : List A) → IsSorted cmp xs → IsSorted cmp (insert cmp k xs)
  unfolding insert
  insert-IsSorted k [] s = (tt, tt)
  insert-IsSorted k (x ∷ xs) s = elim (Ordering-cases (cmp k x)) [
    | inl c ↦ rw (c, insert) ((c, lt-AllCompare ord k x xs c s.0), s)
    | inr (inl c) ↦ rw (c, insert) s
    | inr (inr c) ↦
        rw (c, insert)
          (
            AllCompare-insert cmp x k Ordering.lt xs (lt_of_gt ord k x c) s.0,
            insert-IsSorted k xs s.1,
          )
  ]

  -- In a sorted list a key that compares equal is the one that is found.
  pub find_of_In :
      (k x : A) (xs : List A)
      → IsSorted cmp xs
      → In x xs
      → cmp k x ≡ Ordering.eq
      → find cmp k xs ≡ some x
  unfolding find
  find_of_In k x [] s m e = absurd m
  find_of_In k x (y ∷ xs) s (inl p) e = rw (rw p at e, find) (ap some (sym p))
  find_of_In k x (y ∷ xs) s (inr m) e =
      let y_lt_x : cmp y x ≡ Ordering.lt = AllCompare-In cmp y Ordering.lt xs x s.0 m in
      let k_gt_y : cmp k y ≡ Ordering.gt = ord.same k x y e ∙ gt_of_lt ord y x y_lt_x in
      rw (k_gt_y, find) (find_of_In k x xs s.1 m e)
