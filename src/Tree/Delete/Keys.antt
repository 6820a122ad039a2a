-- ===== src/Tree/Delete/Keys.antt =====
-- `tdelete2` takes one key from the list of keys, whatever it rotates.
use sipecho.Common.{
  Bool, true, false, List, [], ◌∷◌, ◌++◌, ◌≡◌, ◌∙◌, refl, ap, Ordering, inl, inr, append_assoc,
  append-nil, Bool-cases,
}
use sipecho.Tree.{Tree, nil, node, Frame, in_left, in_right, is_red, plug, blacken}
use sipecho.Tree.Delete.{
  Repair, short, done, repair_left, repair_right, settle, rebalance, unchain, leftmost, delete_node,
  delete_from, tdelete2,
}
use sipecho.Tree.Spec.{IsOrder, IsSorted, erase, inorder, lefts, rights}
use sipecho.Tree.Insert.{inorder-plug, inorder-blacken}
use sipecho.Tree.Order.{Ordering-cases, IsSorted-append, erase-eq, erase-gt, erase-lt_side}

module _ {A : Type 0} where
  abbrev repaired : Repair A → List A
  repaired (short t) = inorder t
  repaired (done t) = inorder t

  repaired-repair_left :
      (r : Tree A) (p_red : Bool) (p_key : A) (q : Tree A)
      → repaired (repair_left r p_red p_key q) ≡ inorder r ++ (p_key ∷ inorder q)
  unfolding repair_left
  repaired-repair_left r p_red p_key nil = refl
  repaired-repair_left r p_red p_key (node q_red nil q_key nil) = refl
  repaired-repair_left r p_red p_key (node q_red nil q_key (node true a k b)) = simp append_assoc
  repaired-repair_left r p_red p_key (node q_red nil q_key (node false a k b)) = refl
  repaired-repair_left r p_red p_key (node q_red (node true a k b) q_key nil) = simp append_assoc
  repaired-repair_left r p_red p_key (node q_red (node false a k b) q_key nil) = refl
  repaired-repair_left r p_red p_key (node q_red (node true a k b) q_key (node true c m d)) =
      simp append_assoc
  repaired-repair_left r p_red p_key (node q_red (node true a k b) q_key (node false c m d)) =
      simp append_assoc
  repaired-repair_left r p_red p_key (node q_red (node false a k b) q_key (node true c m d)) =
      simp append_assoc
  repaired-repair_left r p_red p_key (node q_red (node false a k b) q_key (node false c m d)) = refl

  repaired-repair_right :
      (r : Tree A) (p_red : Bool) (p_key : A) (q : Tree A)
      → repaired (repair_right r p_red p_key q) ≡ inorder q ++ (p_key ∷ inorder r)
  unfolding repair_right
  repaired-repair_right r p_red p_key nil = refl
  repaired-repair_right r p_red p_key (node q_red nil q_key nil) = refl
  repaired-repair_right r p_red p_key (node q_red (node true a k b) q_key nil) = simp append_assoc
  repaired-repair_right r p_red p_key (node q_red (node false a k b) q_key nil) = refl
  repaired-repair_right r p_red p_key (node q_red nil q_key (node true a k b)) = simp append_assoc
  repaired-repair_right r p_red p_key (node q_red nil q_key (node false a k b)) = refl
  repaired-repair_right r p_red p_key (node q_red (node true a k b) q_key (node true c m d)) =
      simp append_assoc
  repaired-repair_right r p_red p_key (node q_red (node true a k b) q_key (node false c m d)) =
      simp append_assoc
  repaired-repair_right r p_red p_key (node q_red (node false a k b) q_key (node true c m d)) =
      simp append_assoc
  repaired-repair_right r p_red p_key (node q_red (node false a k b) q_key (node false c m d)) =
      refl

  inorder-plug-blacken :
      (path : List (Frame A)) (t : Tree A)
      → inorder (plug path (blacken t)) ≡ lefts path ++ (inorder t ++ rights path)
  inorder-plug-blacken path t = inorder-plug path (blacken t) ∙ rw (inorder-blacken t)

  inorder-settle :
      (path : List (Frame A)) (o : Repair A)
      → inorder (settle path o) ≡ lefts path ++ (repaired o ++ rights path)
  unfolding settle
  inorder-settle path (short t) = inorder-plug-blacken path t
  inorder-settle path (done t) = inorder-plug path t

  -- The end of a round whose brother Q is black, given that the next rounds keep the keys.
  after :
      (path : List (Frame A)) (o : Repair A)
      → ((t : Tree A) → inorder (rebalance t path) ≡ lefts path ++ (inorder t ++ rights path))
      → inorder (elim o [ short t ↦ rebalance t path | done t ↦ plug path t ])
        ≡ lefts path ++ (repaired o ++ rights path)
  after path (short t) rest = rest t
  after path (done t) rest = inorder-plug path t

  -- The rebalancing, whatever it rotates, keeps the keys and their order.
  inorder-rebalance :
      (r : Tree A) (path : List (Frame A))
      → inorder (rebalance r path) ≡ lefts path ++ (inorder r ++ rights path)
  unfolding rebalance
  inorder-rebalance r [] = inorder-blacken r ∙ simp append-nil
  inorder-rebalance r (in_left p_red p_key (node true ql q_key qr) ∷ path) =
      elim (Bool-cases (is_red r)) [
        | inl e ↦
            rw (e, rebalance)
              (inorder-plug-blacken (in_left p_red p_key (node true ql q_key qr) ∷ path) r)
        | inr e ↦
            rw (e, rebalance)
              (inorder-settle (in_left false q_key qr ∷ path) (repair_left r true p_key ql)
                ∙ ap (λ ks. lefts path ++ (ks ++ (q_key ∷ (inorder qr ++ rights path))))
                    (repaired-repair_left r true p_key ql)
                ∙ simp append_assoc)
      ]
  inorder-rebalance r (in_right p_red (node true ql q_key qr) p_key ∷ path) =
      elim (Bool-cases (is_red r)) [
        | inl e ↦
            rw (e, rebalance)
              (inorder-plug-blacken (in_right p_red (node true ql q_key qr) p_key ∷ path) r)
        | inr e ↦
            rw (e, rebalance)
              (inorder-settle (in_right false ql q_key ∷ path) (repair_right r true p_key qr)
                ∙ ap (λ ks. (lefts path ++ (inorder ql ++ (q_key ∷ []))) ++ (ks ++ rights path))
                    (repaired-repair_right r true p_key qr)
                ∙ simp append_assoc)
      ]
  inorder-rebalance r (in_left p_red p_key q ∷ path) = elim (Bool-cases (is_red r)) [
    | inl e ↦ rw (e, rebalance) (inorder-plug-blacken (in_left p_red p_key q ∷ path) r)
    | inr e ↦
        rw (e, rebalance)
          (after path (repair_left r p_red p_key q) (λ t. inorder-rebalance t path)
            ∙ ap (λ ks. lefts path ++ (ks ++ rights path)) (repaired-repair_left r p_red p_key q)
            ∙ simp append_assoc)
  ]
  inorder-rebalance r (in_right p_red q p_key ∷ path) = elim (Bool-cases (is_red r)) [
    | inl e ↦ rw (e, rebalance) (inorder-plug-blacken (in_right p_red q p_key ∷ path) r)
    | inr e ↦
        rw (e, rebalance)
          (after path (repair_right r p_red p_key q) (λ t. inorder-rebalance t path)
            ∙ ap (λ ks. lefts path ++ (ks ++ rights path)) (repaired-repair_right r p_red p_key q)
            ∙ simp append_assoc)
  ]

  inorder-unchain :
      (red : Bool) (r : Tree A) (path : List (Frame A))
      → inorder (unchain red r path) ≡ lefts path ++ (inorder r ++ rights path)
  unfolding unchain
  inorder-unchain true r path = inorder-plug path r
  inorder-unchain false r path = inorder-rebalance r path

  lefts-append : (p q : List (Frame A)) → lefts (p ++ q) ≡ lefts q ++ lefts p
  lefts-append [] q = simp append-nil
  lefts-append (in_left red x r ∷ p) q = lefts-append p q
  lefts-append (in_right red l x ∷ p) q = simp (lefts-append p q, append_assoc)

  rights-append : (p q : List (Frame A)) → rights (p ++ q) ≡ rights p ++ rights q
  rights-append [] q = refl
  rights-append (in_left red x r ∷ p) q = simp (rights-append p q, append_assoc)
  rights-append (in_right red l x ∷ p) q = rights-append p q

  -- The leftmost node of a subtree holds its first key, with nothing before it.
  leftmost-first :
      (red : Bool) (l : Tree A) (x : A) (r : Tree A) (frames : List (Frame A))
      → lefts frames ≡ []
      → let u = leftmost red l x r frames in
        (lefts u.frames ≡ [])
        × (u.key ∷ (inorder u.right ++ rights u.frames) ≡ inorder (node red l x r) ++ rights frames)
  unfolding leftmost
  leftmost-first red nil x r frames h = (h, refl)
  leftmost-first red (node red' l x' r') x r frames h =
      let (a, b) = leftmost-first red' l x' r' (in_left red x r ∷ frames) h in
      (a, b ∙ simp append_assoc)

  inorder-delete_node :
      (red : Bool) (l r : Tree A) (path : List (Frame A))
      → inorder (delete_node red l r path) ≡ lefts path ++ ((inorder l ++ inorder r) ++ rights path)
  unfolding delete_node
  inorder-delete_node red nil r path = inorder-unchain red r path
  inorder-delete_node red (node l_red ll lx lr) nil path =
      inorder-unchain red (node l_red ll lx lr) path ∙ simp append-nil
  inorder-delete_node red (node l_red ll lx lr) (node r_red rl rx rr) path =
      let u = leftmost r_red rl rx rr [] in
      let f = leftmost-first r_red rl rx rr [] refl in
      let top = in_right red (node l_red ll lx lr) u.key ∷ path in
      inorder-unchain u.red u.right (u.frames ++ top)
      ∙ rw (lefts-append u.frames top, rights-append u.frames top, f.0)
          (simp append_assoc (
            simp (append_assoc, append-nil) at
              (ap (λ ks. lefts path ++ (inorder (node l_red ll lx lr) ++ (ks ++ rights path)))
                f.1)))

module _ {A : Type 0} {cmp : A → A → Ordering} (ord : IsOrder cmp) where
  delete_from-erase :
      (k : A) (path : List (Frame A)) (t : Tree A)
      → IsSorted cmp (inorder t)
      → inorder (delete_from cmp k path t) ≡ lefts path ++ (erase cmp k (inorder t) ++ rights path)
  unfolding delete_from erase
  delete_from-erase k path nil s = inorder-plug path nil
  delete_from-erase k path (node red l x r) s =
      let parts = IsSorted-append cmp (inorder l) (x ∷ inorder r) s in
      elim (Ordering-cases (cmp k x)) [
        | inl e ↦
            rw (e, delete_from)
              (delete_from-erase k (in_left red x r ∷ path) l parts.0
                ∙ rw (erase-lt_side ord k x (inorder l) (inorder r) s e) (simp append_assoc))
        | inr (inl e) ↦
            rw (e, delete_from)
              (inorder-delete_node red l r path ∙ rw (erase-eq ord k x (inorder l) (inorder r) s e))
        | inr (inr e) ↦
            rw (e, delete_from)
              (delete_from-erase k (in_right red l x ∷ path) r parts.1.1
                ∙ rw (erase-gt ord k x (inorder l) (inorder r) s e) (simp append_assoc))
      ]

  -- On a sorted tree, with a comparison that is an order, `tdelete2` takes the key that compares
  -- equal out of the list of keys, and changes nothing where there is none.
  pub tdelete2-erase :
      (k : A) (t : Tree A)
      → IsSorted cmp (inorder t)
      → inorder (tdelete2 cmp k t) ≡ erase cmp k (inorder t)
  unfolding tdelete2
  tdelete2-erase k t s = delete_from-erase k [] t s ∙ simp append-nil
