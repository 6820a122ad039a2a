-- ===== src/Tree/Insert.antt =====
-- Where the rotations of an insertion leave the keys: the order of the keys in the whole tree, and
-- the keys on either side of the two slots below a split node, are what they were.
use sipecho.Common.{
  Bool, true, List, [], ◌∷◌, ◌++◌, ◌≡◌, refl, inl, inr, append_assoc, append-nil, Bool-cases,
}
use sipecho.Tree.{Tree, nil, node, Frame, in_left, in_right, plug, blacken, frame_is_red}
use sipecho.Tree.Search.{Slots, plain, rotate, split, maybe_split, needs_split, link}
use sipecho.Tree.Spec.{inorder, lefts, rights}

module _ {A : Type 0} where
  pub inorder-plug :
      (p : List (Frame A)) (t : Tree A) → inorder (plug p t) ≡ lefts p ++ (inorder t ++ rights p)
  inorder-plug [] t = simp append-nil
  inorder-plug (in_left red x r ∷ p) t = simp (inorder-plug p, append_assoc)
  inorder-plug (in_right red l x ∷ p) t = simp (inorder-plug p, append_assoc)

  pub inorder-blacken : (t : Tree A) → inorder (blacken t) ≡ inorder t
  inorder-blacken nil = refl
  inorder-blacken (node red l x r) = refl

  -- The slots below a node `x` at the end of `path`, whose subtrees hold `ls` and `rs`.
  pub record Below (ls : List A) (x : A) (rs : List A) (path : List (Frame A)) (s : Slots A)
      : Type 0 where
    pub left_lefts : lefts s.at_left ≡ lefts path
    pub left_rights : rights s.at_left ≡ x ∷ (rs ++ rights path)
    pub right_lefts : lefts s.at_right ≡ lefts path ++ (ls ++ (x ∷ []))
    pub right_rights : rights s.at_right ≡ rights path

  rotate-Below :
      (l : Tree A) (x : A) (r : Tree A) (p g : Frame A) (path : List (Frame A))
      → Below (inorder l) x (inorder r) (p ∷ g ∷ path) (rotate l x r p g path)
  unfolding rotate
  rotate-Below l x r (in_left _ px pr) (in_left _ gx gr) path = record {
    left_lefts = refl;
    left_rights = simp append_assoc;
    right_lefts = refl;
    right_rights = simp append_assoc;
  }
  rotate-Below l x r (in_left _ px pr) (in_right _ gl gx) path = record {
    left_lefts = refl;
    left_rights = simp append_assoc;
    right_lefts = simp append_assoc;
    right_rights = refl;
  }
  rotate-Below l x r (in_right _ pl px) (in_left _ gx gr) path = record {
    left_lefts = refl;
    left_rights = simp append_assoc;
    right_lefts = simp append_assoc;
    right_rights = refl;
  }
  rotate-Below l x r (in_right _ pl px) (in_right _ gl gx) path = record {
    left_lefts = simp append_assoc;
    left_rights = refl;
    right_lefts = simp append_assoc;
    right_rights = refl;
  }

  plain-Below :
      (red : Bool) (l : Tree A) (x : A) (r : Tree A) (path : List (Frame A))
      → Below (inorder l) x (inorder r) path (plain red l x r path)
  plain-Below red l x r path = record {
    left_lefts = refl;
    left_rights = refl;
    right_lefts = refl;
    right_rights = refl;
  }

  split-Below :
      (l : Tree A) (x : A) (r : Tree A) (path : List (Frame A))
      → Below (inorder l) x (inorder r) path (split l x r path)
  unfolding split
  split-Below l x r [] = plain-Below true l x r []
  split-Below l x r (p ∷ []) = plain-Below true l x r (p ∷ [])
  split-Below l x r (p ∷ g ∷ path) = elim (Bool-cases (frame_is_red p)) [
    | inl e ↦ rw (e, split) (rotate-Below l x r p g path)
    | inr e ↦ rw (e, split) (plain-Below true l x r (p ∷ g ∷ path))
  ]

  pub maybe_split-Below :
      (red : Bool) (l : Tree A) (x : A) (r : Tree A) (path : List (Frame A))
      → Below (inorder l) x (inorder r) path (maybe_split red l x r path)
  unfolding maybe_split
  maybe_split-Below red l x r path = elim (Bool-cases (needs_split l r)) [
    | inl e ↦
        rw (e, maybe_split)
          (rw (← inorder-blacken l, ← inorder-blacken r)
            (split-Below (blacken l) x (blacken r) path))
    | inr e ↦ rw (e, maybe_split) (plain-Below red l x r path)
  ]

  pub inorder-link :
      (k : A) (path : List (Frame A)) → inorder (link k path) ≡ lefts path ++ (k ∷ rights path)
  unfolding link
  inorder-link k [] = refl
  inorder-link k (p ∷ path) =
      let b : Below [] k [] (p ∷ path) (split nil k nil (p ∷ path)) =
        split-Below nil k nil (p ∷ path) in
      rw (inorder-plug, b.left_lefts, b.left_rights)
