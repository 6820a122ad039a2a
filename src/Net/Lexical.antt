-- ===== src/Net/Lexical.antt =====
-- Comparisons one after another: the second where the first is a tie, as `then_by` has it.
use sipecho.Common.{refl, ◌≡◌, sym, ◌∙◌, ap, Ordering, arith}
use Prim.Native.Nat.{compare}
use sipecho.Tree.Spec.{IsOrder, opposite}
use sipecho.Net.{then_by}
use sipecho.Net.Port.{then_by-eq}

pub compare-IsOrder : IsOrder compare
compare-IsOrder = record {
  flip = λ a b. ground arith;
  same = λ a b c e. ground arith;
  lt_trans = λ a b c e f. ground arith;
}

pub then_by-opposite : (o p : Ordering) → then_by (opposite o) (opposite p) ≡ opposite (then_by o p)
then_by-opposite Ordering.eq p = refl
then_by-opposite Ordering.lt p = refl
then_by-opposite Ordering.gt p = refl

-- Comparison by a key.
pub by_key :
    {A B : Type 0} (f : A → B) (cmp : B → B → Ordering)
    → IsOrder cmp
    → IsOrder (λ (x y : A). cmp (f x) (f y))
by_key f cmp h = record {
  flip = λ a b. h.flip (f a) (f b);
  same = λ a b c. h.same (f a) (f b) (f c);
  lt_trans = λ a b c. h.lt_trans (f a) (f b) (f c);
}

-- Transitivity at one triple, with what the first comparison says of ties.
pub lex_trans :
    (x1 x2 x3 y1 y2 y3 : Ordering)
    → (x1 ≡ Ordering.eq → x3 ≡ x2)
    → (x2 ≡ Ordering.eq → x3 ≡ x1)
    → (x1 ≡ Ordering.lt → x2 ≡ Ordering.lt → x3 ≡ Ordering.lt)
    → (y1 ≡ Ordering.lt → y2 ≡ Ordering.lt → y3 ≡ Ordering.lt)
    → then_by x1 y1 ≡ Ordering.lt
    → then_by x2 y2 ≡ Ordering.lt
    → then_by x3 y3 ≡ Ordering.lt
lex_trans Ordering.eq Ordering.eq x3 y1 y2 y3 h k t u p q = rw (h refl) (u p q)
lex_trans Ordering.eq Ordering.lt x3 y1 y2 y3 h k t u p q = rw (h refl) refl
lex_trans Ordering.eq Ordering.gt x3 y1 y2 y3 h k t u p q = absurd (ground (arith, q))
lex_trans Ordering.lt Ordering.eq x3 y1 y2 y3 h k t u p q = rw (k refl) refl
lex_trans Ordering.lt Ordering.lt x3 y1 y2 y3 h k t u p q = rw (t refl refl) refl
lex_trans Ordering.lt Ordering.gt x3 y1 y2 y3 h k t u p q = absurd (ground (arith, q))
lex_trans Ordering.gt x2 x3 y1 y2 y3 h k t u p q = absurd (ground (arith, p))

-- A tie on the right.
pub tie_right :
    {A : Type 0} {cmp : A → A → Ordering}
    → IsOrder cmp
    → (a b c : A) → cmp b c ≡ Ordering.eq
    → cmp a c ≡ cmp a b
tie_right h a b c e = h.flip c a ∙ (ap opposite (sym (h.same b c a e)) ∙ sym (h.flip b a))

-- The second comparison where the first is a tie.
pub lex :
    {A : Type 0} (first second : A → A → Ordering)
    → IsOrder first
    → IsOrder second
    → IsOrder (λ a b. then_by (first a b) (second a b))
lex first second h k = record {
  flip = λ a b. rw (h.flip a b, k.flip a b) (then_by-opposite (first a b) (second a b));
  same = λ a b c e.
      let (p, q) = then_by-eq (first a b) (second a b) e in
      rw (h.same a b c p, k.same a b c q) refl;
  lt_trans = λ a b c.
      lex_trans (first a b) (first b c) (first a c) (second a b) (second b c) (second a c)
        (h.same a b c) (tie_right h a b c) (h.lt_trans a b c) (k.lt_trans a b c);
}
