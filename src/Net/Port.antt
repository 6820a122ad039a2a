-- ===== src/Net/Port.antt =====
-- Texts that the sign of `strcmp` calls equal.
use sipecho.Common.{ℕ, [], ◌∷◌, Ordering, ◌≡◌, refl, arith}
use Prim.Native.Nat.{compare}
use sipecho.Xml.Text.{Bytes}
use sipecho.Net.{then_by, strcmp_sign}

pub then_by-eq :
    (o p : Ordering) → then_by o p ≡ Ordering.eq → (o ≡ Ordering.eq) × (p ≡ Ordering.eq)
then_by-eq Ordering.eq p h = (refl, h)
then_by-eq Ordering.lt p h = absurd (ground (arith, h))
then_by-eq Ordering.gt p h = absurd (ground (arith, h))

compare-eq : (c d : ℕ) → compare c d ≡ Ordering.eq → c ≡ d
compare-eq c d h = ground (arith, h)

pub strcmp_sign-eq : (a b : Bytes) → strcmp_sign a b ≡ Ordering.eq → a ≡ b
unfolding strcmp_sign
strcmp_sign-eq [] [] h = refl
strcmp_sign-eq [] (d ∷ b) h = absurd (ground (arith, h))
strcmp_sign-eq (c ∷ a) [] h = absurd (ground (arith, h))
strcmp_sign-eq (c ∷ a) (d ∷ b) h =
    let (p, q) = then_by-eq (compare c d) (strcmp_sign a b) h in
    rw (compare-eq c d p, strcmp_sign-eq a b q) refl
