-- ===== src/Aor/Order.antt =====
-- On most contacts that the registrar takes, its comparison is an order, as its maps want.
use sipecho.Common.{ℕ, ◌<◌, ◌^◌, some, [], ◌∷◌, Ordering, ◌≡◌, refl, arith}
use Prim.Native.Nat.{compare}
use sipecho.Xml.Text.{Bytes}
use sipecho.Tree.Spec.{IsOrder, opposite}
use sipecho.Net.{then_by, strcmp_sign, strcasecmp_sign, lower, net_port2, net_port}
use sipecho.Net.Port.{strcmp_sign-eq}
use sipecho.Net.Lexical.{compare-IsOrder, then_by-opposite, by_key, lex, tie_right, lex_trans}
use sipecho.Aor.{
  text, then_if_tie, difference_sign, contact_compare, aor_record_cmp, Plain, plain_cmp,
}

strcmp_sign_flip : (a b : Bytes) → strcmp_sign b a ≡ opposite (strcmp_sign a b)
unfolding strcmp_sign
strcmp_sign_flip [] [] = refl
strcmp_sign_flip [] (d ∷ b) = refl
strcmp_sign_flip (c ∷ a) [] = refl
strcmp_sign_flip (c ∷ a) (d ∷ b) =
    rw (compare-IsOrder.flip c d, strcmp_sign_flip a b)
      (then_by-opposite (compare c d) (strcmp_sign a b))

strcmp_sign_trans :
    (a b e : Bytes)
    → strcmp_sign a b ≡ Ordering.lt
    → strcmp_sign b e ≡ Ordering.lt
    → strcmp_sign a e ≡ Ordering.lt
unfolding strcmp_sign
strcmp_sign_trans [] [] e p q = absurd (ground (arith, p))
strcmp_sign_trans [] (d ∷ b) [] p q = absurd (ground (arith, q))
strcmp_sign_trans [] (d ∷ b) (x ∷ e) p q = refl
strcmp_sign_trans (c ∷ a) [] e p q = absurd (ground (arith, p))
strcmp_sign_trans (c ∷ a) (d ∷ b) [] p q = absurd (ground (arith, q))
strcmp_sign_trans (c ∷ a) (d ∷ b) (x ∷ e) p q =
    lex_trans (compare c d) (compare d x) (compare c x) (strcmp_sign a b) (strcmp_sign b e)
      (strcmp_sign a e) (compare-IsOrder.same c d x) (tie_right compare-IsOrder c d x)
      (compare-IsOrder.lt_trans c d x) (strcmp_sign_trans a b e) p q

strcmp_sign-IsOrder : IsOrder strcmp_sign
strcmp_sign-IsOrder = record {
  flip = strcmp_sign_flip;
  same = λ a b c e. rw (strcmp_sign-eq a b e) refl;
  lt_trans = strcmp_sign_trans;
}

strcasecmp_sign-IsOrder : IsOrder strcasecmp_sign
unfolding strcasecmp_sign
strcasecmp_sign-IsOrder = by_key lower strcmp_sign strcmp_sign-IsOrder

plain_cmp-IsOrder : (atoi : Bytes → ℕ) → IsOrder (plain_cmp atoi)
plain_cmp-IsOrder atoi =
    lex (λ a b. strcmp_sign a.protocol b.protocol) _
      (by_key (λ (p : Plain atoi). p.protocol) strcmp_sign strcmp_sign-IsOrder)
      (lex (λ a b. strcasecmp_sign a.scheme b.scheme) _
        (by_key (λ (p : Plain atoi). p.scheme) strcasecmp_sign strcasecmp_sign-IsOrder)
        (lex (λ a b. strcasecmp_sign a.host b.host) _
          (by_key (λ (p : Plain atoi). p.host) strcasecmp_sign strcasecmp_sign-IsOrder)
          (lex
            (λ a b.
              compare (net_port atoi (some a.record_of.url)) (net_port atoi (some b.record_of.url)))
            _
            (by_key (λ (p : Plain atoi). net_port atoi (some p.record_of.url)) compare
              compare-IsOrder)
            (by_key (λ (p : Plain atoi). text p.record_of.url.username) strcasecmp_sign
              strcasecmp_sign-IsOrder))))

then_if_tie-some : (o p : Ordering) → then_if_tie (some o) (some p) ≡ some (then_by o p)
then_if_tie-some Ordering.eq p = refl
then_if_tie-some Ordering.lt p = refl
then_if_tie-some Ordering.gt p = refl

then_if_tie-chain :
    (o p q r t : Ordering)
    → then_if_tie
        (some o)
        (then_if_tie (some p) (then_if_tie (some q) (then_if_tie (some r) (some t))))
      ≡ some (then_by o (then_by p (then_by q (then_by r t))))
then_if_tie-chain o p q r t =
    rw
      (
        then_if_tie-some r t,
        then_if_tie-some q (then_by r t),
        then_if_tie-some p (then_by q (then_by r t)),
      )
      (then_if_tie-some o (then_by p (then_by q (then_by r t))))

-- The difference of two ints that are not negative does not overflow.
difference_sign-compare :
    (a b : ℕ) → a < 2 ^ 31 → b < 2 ^ 31 → difference_sign a b ≡ some (compare a b)
difference_sign-compare a b p q = ground arith

-- On records with a protocol, a scheme, a host, a user that is not `*`, and a port that is not
-- negative, the comparison of the registrar's map of contacts is defined, and it is the order by
-- these fields one after another, which is one as the theorems on maps ask: it is turned around
-- with its arguments, transitive, and equal records compare with all others alike.
pub aor_record_cmp-IsOrder :
    (atoi : Bytes → ℕ) (a b : Plain atoi)
    → IsOrder (plain_cmp atoi)
      × (aor_record_cmp atoi a.record_of b.record_of ≡ some (plain_cmp atoi a b))
unfolding aor_record_cmp contact_compare
aor_record_cmp-IsOrder atoi a b = (
  plain_cmp-IsOrder atoi,
  rw
      (
        difference_sign-compare (net_port atoi (some a.record_of.url))
            (net_port atoi (some b.record_of.url)) a.port_small b.port_small,
        a.has_protocol,
        b.has_protocol,
        a.has_scheme,
        b.has_scheme,
        a.has_host,
        b.has_host,
        a.not_wild,
        b.not_wild,
      )
      (then_if_tie-chain (strcmp_sign a.protocol b.protocol) (strcasecmp_sign a.scheme b.scheme)
        (strcasecmp_sign a.host b.host)
        (compare (net_port2 atoi (some a.scheme) a.record_of.url.port)
          (net_port2 atoi (some b.scheme) b.record_of.url.port))
        (strcasecmp_sign (text a.record_of.url.username) (text b.record_of.url.username))),
)
