-- ===== src/Tree/Walk.antt =====
-- lib/common/map.c: `twalk2`, the walk through a search tree.
use sipecho.Common.{
  ℕ, suc, ◌==◌, if◌then◌else◌, List, [], ◌∷◌, ◌++◌, ◌≡◌, refl, sym, ◌∙◌, ap, inl, inr, Bool-cases,
  arith,
}
use mathlib.Core.Path.{fun_ext}
use sipecho.Tree.{Tree, nil, node}
use sipecho.Tree.Spec.{inorder}

-- `VISIT`
pub data Visit : Type 0 where
  preorder postorder endorder leaf : Visit

-- What an action returns, with the state that it leaves; 0 lets the walk go on.
module _ {S : Type 0} where
  abbrev pub and_then : ℕ × S → (S → ℕ × S) → ℕ × S
  and_then (r, s) f = if r == 0 then f s else (r, s)

  and_then_assoc :
      (p : ℕ × S) (f g : S → ℕ × S) → and_then (and_then p f) g ≡ and_then p (λ s. and_then (f s) g)
  and_then_assoc (r, s) f g = elim (Bool-cases (r == 0)) [
    | inl e ↦ rw e refl
    | inr e ↦ rw e (rw e refl)
  ]

  and_then_unit : (p : ℕ × S) → and_then p (λ s. (0, s)) ≡ p
  and_then_unit (r, s) = elim (Bool-cases (r == 0)) [
    | inl e ↦ let zero_r : r ≡ 0 = ground (arith, e) in rw zero_r refl
    | inr e ↦ rw e refl
  ]

  module _ {A : Type 0} where
    -- `trecurse`; it is never called with a null tree.
    unfoldable pub trecurse : (A → Visit → ℕ → S → ℕ × S) → ℕ → Tree A → S → ℕ × S
    trecurse action level nil s = (0, s)
    trecurse action level (node red nil x nil) s = action x leaf level s
    trecurse action level (node red l x r) s = and_then (action x preorder level s) (λ s.
        and_then (trecurse action (suc level) l s) (λ s.
          and_then (action x postorder level s)
            (λ s. and_then (trecurse action (suc level) r s) (λ s. action x endorder level s))))

    -- `twalk2`
    unfoldable pub twalk2 : (A → Visit → ℕ → S → ℕ × S) → Tree A → S → ℕ × S
    unfolding trecurse
    twalk2 action t s = trecurse action 0 t s

    -- `map_internal_action`
    abbrev pub in_order : (A → S → ℕ × S) → A → Visit → ℕ → S → ℕ × S
    in_order exe x leaf level s = exe x s
    in_order exe x postorder level s = exe x s
    in_order exe x visit level s = (0, s)

    -- The same for the keys of a list, one after another.
    abbrev pub visit_all : (A → S → ℕ × S) → List A → S → ℕ × S
    visit_all exe [] s = (0, s)
    visit_all exe (x ∷ xs) s = and_then (exe x s) (visit_all exe xs)

    visit_all-append :
        (exe : A → S → ℕ × S) (xs ys : List A) (s : S)
        → visit_all exe (xs ++ ys) s ≡ and_then (visit_all exe xs s) (visit_all exe ys)
    visit_all-append exe [] ys s = refl
    visit_all-append exe (x ∷ xs) ys s =
        ap (and_then (exe x s)) (fun_ext (visit_all-append exe xs ys))
        ∙ sym (and_then_assoc (exe x s) (visit_all exe xs) (visit_all exe ys))

    inner :
        (exe : A → S → ℕ × S) (l r : Tree A) (level : ℕ) (x : A)
        → ((s : S) → trecurse (in_order exe) (suc level) l s ≡ visit_all exe (inorder l) s)
        → ((s : S) → trecurse (in_order exe) (suc level) r s ≡ visit_all exe (inorder r) s)
        → (s : S)
        → and_then (trecurse (in_order exe) (suc level) l s) (λ s.
          and_then
            (exe x s)
            (λ s. and_then (trecurse (in_order exe) (suc level) r s) (λ s. (0, s))))
          ≡ visit_all exe (inorder l ++ (x ∷ inorder r)) s
    inner exe l r level x h k s =
        rw (visit_all-append exe (inorder l) (x ∷ inorder r) s, h s)
          (ap (and_then (visit_all exe (inorder l) s)) (
            fun_ext (λ s'. ap (and_then (exe x s')) (
              fun_ext (λ s''. and_then_unit (trecurse (in_order exe) (suc level) r s'') ∙ k s'')))))

    trecurse-visit_all :
        (exe : A → S → ℕ × S) (t : Tree A) (level : ℕ) (s : S)
        → trecurse (in_order exe) level t s ≡ visit_all exe (inorder t) s
    unfolding trecurse
    trecurse-visit_all exe nil level s = refl
    trecurse-visit_all exe (node red nil x nil) level s = sym (and_then_unit (exe x s))
    trecurse-visit_all exe (node red (node a b c d) x r) level s =
        inner exe (node a b c d) r level x (trecurse-visit_all exe (node a b c d) (suc level))
          (trecurse-visit_all exe r (suc level)) s
    trecurse-visit_all exe (node red nil x (node a b c d)) level s =
        inner exe nil (node a b c d) level x (λ s. refl)
          (trecurse-visit_all exe (node a b c d) (suc level)) s

    -- The walk of `map_walk` runs through the keys in their order, as far as the function returns 0.
    pub twalk2-visit_all :
        (exe : A → S → ℕ × S) (t : Tree A) (s : S)
        → twalk2 (in_order exe) t s ≡ visit_all exe (inorder t) s
    unfolding twalk2
    twalk2-visit_all exe t s = trecurse-visit_all exe t 0 s
