-- ===== src/Dns/Order.antt =====
-- `dns_compare` is an order of lookups by their ids.
use Prim.Native.Nat.{compare}
use sipecho.Common.{ℕ, ◌<◌, ◌^◌, Ordering, ◌≡◌, arith}
use sipecho.Tree.Spec.{IsOrder}
use sipecho.Net.Port.{then_by-eq}
use sipecho.Net.Lexical.{compare-IsOrder, by_key, lex}
use sipecho.Dns.{Entity, byte, dns_compare}

compare-eq : (c d : ℕ) → compare c d ≡ Ordering.eq → c ≡ d
compare-eq c d h = ground (arith, h)

compare_refl : (c : ℕ) → compare c c ≡ Ordering.eq
compare_refl c = ground arith

same_bytes :
    (x y : ℕ)
    → x < 2 ^ 32
    → y < 2 ^ 32
    → byte 0 x ≡ byte 0 y
    → byte 1 x ≡ byte 1 y
    → byte 2 x ≡ byte 2 y
    → byte 3 x ≡ byte 3 y
    → x ≡ y
same_bytes x y hx hy p q r s = omega arith

module _ {Callback Address : Type 0} where
  abbrev at : ℕ → Entity Callback Address → Entity Callback Address → Ordering
  at i a b = compare (byte i a.id) (byte i b.id)

  at-IsOrder : (i : ℕ) → IsOrder (at i)
  at-IsOrder i = by_key (λ (e : Entity Callback Address). byte i e.id) compare compare-IsOrder

  pub dns_compare-IsOrder : IsOrder (dns_compare {Callback = Callback} {Address = Address})
  unfolding dns_compare
  dns_compare-IsOrder =
      lex (at 0) _ (at-IsOrder 0)
        (lex (at 1) _ (at-IsOrder 1) (lex (at 2) (at 3) (at-IsOrder 2) (at-IsOrder 3)))

  -- Lookups compare equal exactly if they have the same id.
  pub dns_compare_of_id :
      (a b : Entity Callback Address) → a.id ≡ b.id → dns_compare a b ≡ Ordering.eq
  unfolding dns_compare
  dns_compare_of_id a b e = rw e (
      rw (compare_refl (byte 0 b.id), compare_refl (byte 1 b.id), compare_refl (byte 2 b.id))
        (compare_refl (byte 3 b.id)))

  pub dns_compare-id :
      (a b : Entity Callback Address)
      → a.id < 2 ^ 32
      → b.id < 2 ^ 32
      → dns_compare a b ≡ Ordering.eq
      → a.id ≡ b.id
  unfolding dns_compare
  dns_compare-id a b ha hb h =
      let (p, h1) = then_by-eq (at 0 a b) _ h in
      let (q, h2) = then_by-eq (at 1 a b) _ h1 in
      let (r, s) = then_by-eq (at 2 a b) (at 3 a b) h2 in
      same_bytes a.id b.id ha hb (compare-eq _ _ p) (compare-eq _ _ q) (compare-eq _ _ r)
        (compare-eq _ _ s)
