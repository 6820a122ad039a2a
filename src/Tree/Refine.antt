-- ===== src/Tree/Refine.antt =====
-- The search tree implements insertion into, and lookup in, the sorted list of its keys.
use sipecho.Common.{
  Bool, true, not, ◌&&◌, List, [], ◌++◌, ◌≡◌, ◌∙◌, refl, sym, Option, Ordering, inl, inr,
  append_assoc, append-nil,
}
use sipecho.Tree.{Tree, nil, node, Frame}
use sipecho.Tree.Search.{maybe_split, needs_split, descend, tsearch2, tfind2}
use sipecho.Tree.Spec.{IsOrder, IsSorted, insert, find, inorder, lefts, rights}
use sipecho.Tree.Insert.{maybe_split-Below, inorder-plug, inorder-link}
use sipecho.Tree.Order.{
  Ordering-cases, IsSorted-append, insert-append-lt, insert-eq, insert-gt, find-eq, find-gt,
  find-lt_side,
}

abbrev pub or_else {ℓ} : {A : Type ℓ} → Option A → A → A
or_else Option.none d = d
or_else (Option.some a) d = a

module _ {A : Type 0} {cmp : A → A → Ordering} (ord : IsOrder cmp) where
  IsSorted-left :
      (red : Bool) (l : Tree A) (x : A) (r : Tree A)
      → IsSorted cmp (inorder (node red l x r))
      → IsSorted cmp (inorder l)
  IsSorted-left red l x r s = (IsSorted-append cmp (inorder l) _ s).0

  IsSorted-right :
      (red : Bool) (l : Tree A) (x : A) (r : Tree A)
      → IsSorted cmp (inorder (node red l x r))
      → IsSorted cmp (inorder r)
  IsSorted-right red l x r s = (IsSorted-append cmp (inorder l) _ s).1.1

  -- On a sorted tree, with a comparison that is an order, `tfind2` finds the key of the list that
  -- compares equal, and nothing where there is none.
  pub tfind2-find :
      (k : A) (t : Tree A) → IsSorted cmp (inorder t) → tfind2 cmp k t ≡ find cmp k (inorder t)
  unfolding tfind2 find
  tfind2-find k nil s = refl
  tfind2-find k (node red l x r) s = elim (Ordering-cases (cmp k x)) [
    | inl e ↦
        rw (e, tfind2)
          (tfind2-find k l (IsSorted-left red l x r s)
            ∙ sym (find-lt_side ord k x (inorder l) (inorder r) s e))
    | inr (inl e) ↦ rw (e, tfind2) (sym (find-eq ord k x (inorder l) (inorder r) s e))
    | inr (inr e) ↦
        rw (e, tfind2)
          (tfind2-find k r (IsSorted-right red l x r s)
            ∙ sym (find-gt ord k x (inorder l) (inorder r) s e))
  ]

  descend-insert :
      (k : A) (path : List (Frame A)) (black : Bool) (t : Tree A)
      → IsSorted cmp (inorder t)
      → inorder (descend cmp k path black t).1
        ≡ lefts path ++ (insert cmp k (inorder t) ++ rights path)
  unfolding descend insert
  descend-insert k path black nil s = inorder-link k path
  descend-insert k path black (node red l x r) s =
      let b = maybe_split-Below (red && not black) l x r path in
      elim (Ordering-cases (cmp k x)) [
        | inl e ↦
            rw (e, descend)
              (descend-insert k (maybe_split (red && not black) l x r path).at_left
                  (needs_split l r) l (IsSorted-left red l x r s)
                ∙ rw
                    (
                      b.left_lefts,
                      b.left_rights,
                      insert-append-lt cmp k x (inorder l) (inorder r) e,
                    )
                    (simp append_assoc))
        | inr (inl e) ↦
            rw (e, descend)
              (inorder-plug path (node (red && not black) l x r)
                ∙ rw (insert-eq ord k x (inorder l) (inorder r) s e))
        | inr (inr e) ↦
            rw (e, descend)
              (descend-insert k (maybe_split (red && not black) l x r path).at_right
                  (needs_split l r) r (IsSorted-right red l x r s)
                ∙ rw (b.right_lefts, b.right_rights, insert-gt ord k x (inorder l) (inorder r) s e)
                    (simp append_assoc))
      ]

  -- On a sorted tree, with a comparison that is an order, `tsearch2` inserts the key at its place
  -- in the order, and changes nothing where the tree has an equal key.
  pub tsearch2-insert :
      (k : A) (t : Tree A)
      → IsSorted cmp (inorder t)
      → inorder (tsearch2 cmp k t).1 ≡ insert cmp k (inorder t)
  unfolding tsearch2
  tsearch2-insert k t s = descend-insert k [] true t s ∙ simp append-nil

  descend-or_else :
      (k : A) (path : List (Frame A)) (black : Bool) (t : Tree A)
      → (descend cmp k path black t).0 ≡ or_else (tfind2 cmp k t) k
  unfolding descend tfind2
  descend-or_else k path black nil = refl
  descend-or_else k path black (node red l x r) = elim (Ordering-cases (cmp k x)) [
    | inl e ↦
        rw (e, descend, tfind2)
          (descend-or_else k (maybe_split (red && not black) l x r path).at_left (needs_split l r)
            l)
    | inr (inl e) ↦ rw (e, descend, tfind2)
    | inr (inr e) ↦
        rw (e, descend, tfind2)
          (descend-or_else k (maybe_split (red && not black) l x r path).at_right (needs_split l r)
            r)
  ]

  -- The key that `tsearch2` returns is the equal key of the tree, or else the key it was given.
  pub tsearch2-or_else : (k : A) (t : Tree A) → (tsearch2 cmp k t).0 ≡ or_else (tfind2 cmp k t) k
  unfolding tsearch2
  tsearch2-or_else k t = descend-or_else k [] true t
