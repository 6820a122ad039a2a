-- ===== src/Tree/Members.antt =====
-- Which keys a sorted list holds after an insertion and after an erasure.
use sipecho.Common.{
  List, [], ◌∷◌, ◌≡◌, ◌≢◌, ◌⊎◌, inl, inr, refl, ap, none, some, Ordering, arith, In, neither,
}
use sipecho.Tree.Spec.{IsOrder, IsSorted, insert, find, erase}
use sipecho.Tree.Order.{Ordering-cases, lt-AllCompare, eq-AllCompare, find-lt}
use sipecho.Tree.Sorted.{AllCompare-In, find_of_In}

module _ {A : Type 0} (cmp : A → A → Ordering) where
  pub insert-In : (k m : A) (xs : List A) → In m (insert cmp k xs) → (m ≡ k) ⊎ In m xs
  unfolding insert
  insert-In k m [] h = h
  insert-In k m (x ∷ xs) h = ground (arith, insert-In k m xs)

  pub In-insert : (k m : A) (xs : List A) → In m xs → In m (insert cmp k xs)
  unfolding insert
  In-insert k m [] h = absurd h
  In-insert k m (x ∷ xs) h = ground (arith, In-insert k m xs)

  pub In-insert_new : (k : A) (xs : List A) → find cmp k xs ≡ none → In k (insert cmp k xs)
  unfolding insert find
  In-insert_new k [] h = inl refl
  In-insert_new k (x ∷ xs) h = ground (arith, In-insert_new k xs)

  pub erase-In : (k m : A) (xs : List A) → In m (erase cmp k xs) → In m xs
  unfolding erase
  erase-In k m [] h = h
  erase-In k m (x ∷ xs) h = ground (arith, erase-In k m xs)

  pub In-erase : (k m : A) (xs : List A) → cmp k m ≢ Ordering.eq → In m xs → In m (erase cmp k xs)
  unfolding erase
  In-erase k m [] n h = absurd h
  In-erase k m (x ∷ xs) n (inl e) = elim (Ordering-cases (cmp k x)) [
    | inl c ↦ rw (c, erase) (inl e)
    | inr (inl c) ↦ absurd (n (rw e c))
    | inr (inr c) ↦ rw (c, erase) (inl e)
  ]
  In-erase k m (x ∷ xs) n (inr h) = ground (arith, In-erase k m xs n h)

module _ {A : Type 0} {cmp : A → A → Ordering} (ord : IsOrder cmp) where
  pub order_refl : (a : A) → cmp a a ≡ Ordering.eq
  order_refl a = ground (arith, ord.flip a a)

  -- Erasing what has just been inserted gives the list back.
  pub erase-insert :
      (k : A) (xs : List A) → find cmp k xs ≡ none → erase cmp k (insert cmp k xs) ≡ xs
  unfolding insert find erase
  erase-insert k [] h = ground (arith, order_refl k)
  erase-insert k (x ∷ xs) h = ground (arith, order_refl k, erase-insert k xs)

  -- A key that has an equal in the list is not inserted.
  pub insert_found :
      (k y : A) (xs : List A) → IsSorted cmp xs → find cmp k xs ≡ some y → insert cmp k xs ≡ xs
  unfolding insert find
  insert_found k y [] s h = cc
  insert_found k y (x ∷ xs) s h = elim (Ordering-cases (cmp k x)) [
    | inl c ↦ cc (find-lt cmp k xs (lt-AllCompare ord k x xs c s.0), rw (c, find) at h)
    | inr (inl c) ↦ rw (c, insert)
    | inr (inr c) ↦ rw (c, insert) (ap (◌∷◌ x) (insert_found k y xs s.1 (rw (c, find) at h)))
  ]

  -- After an erasure no key is left that compares equal.
  pub erase-ne :
      (k m : A) (xs : List A) → IsSorted cmp xs → In m (erase cmp k xs) → cmp k m ≢ Ordering.eq
  unfolding erase
  erase-ne k m [] s h e = absurd h
  erase-ne k m (x ∷ xs) s h e =
      let later = λ (q : In m (erase cmp k xs)). erase-ne k m xs s.1 q e in
      elim (Ordering-cases (cmp k x)) [
        | inl c ↦ neither (λ p. cc) later (rw (c, erase) at h)
        | inr (inl c) ↦ cc (
            AllCompare-In cmp k Ordering.lt xs m (eq-AllCompare ord k x xs c s.0)
              (rw (c, erase) at h))
        | inr (inr c) ↦ neither (λ p. cc) later (rw (c, erase) at h)
      ]

  -- In a sorted list, keys that compare equal are the same.
  pub eq_of_In :
      (k m : A) (xs : List A) → IsSorted cmp xs → In k xs → In m xs → cmp k m ≡ Ordering.eq → k ≡ m
  eq_of_In k m xs s i j e =
      cc (find_of_In ord k k xs s i (order_refl k), find_of_In ord k m xs s j e)
