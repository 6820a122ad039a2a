-- ===== src/Aor.antt =====
-- src/aor.c: the comparisons that the registrar's maps are made with.
pub mod Order
mod Tests
use sipecho.Common.{
  ℕ, ◌+◌, ◌%◌, ◌^◌, ◌<◌, Bool, true, false, leb, ltb, ◌||◌, if◌then◌else◌, Option, none, some, [],
  ◌∷◌, Ordering, ◌≡◌,
}
use Prim.Native.Nat.{compare}
use sipecho.Xml.Text.{Bytes}
use sipecho.Net.{then_by, strcmp_sign, strcasecmp_sign, is_tie, Url, net_port}

-- The fields of `aor_record_t` that are compared; `url` is that of its contact. The protocol is
-- null where the parameter `transport` has no value.
pub record AorRecord : Type 0 where
  pub protocol : Option Bytes
  pub url : Url

-- `t ? t : ""`
abbrev pub text : Option Bytes → Bytes
text none = []
text (some t) = t

-- The signs of `strcmp` and `strcasecmp`, which are undefined on a null pointer.
abbrev pub strcmp : Option Bytes → Option Bytes → Option Ordering
strcmp (some a) (some b) = some (strcmp_sign a b)
strcmp _ _ = none

abbrev pub strcasecmp : Option Bytes → Option Bytes → Option Ordering
strcasecmp (some a) (some b) = some (strcasecmp_sign a b)
strcasecmp _ _ = none

-- `if (cmp == 0) cmp = ...`
abbrev pub then_if_tie : Option Ordering → Option Ordering → Option Ordering
then_if_tie none o = none
then_if_tie (some Ordering.eq) o = o
then_if_tie (some Ordering.lt) o = some Ordering.lt
then_if_tie (some Ordering.gt) o = some Ordering.gt

-- An int, by its bit pattern, moved up by 2^31.
abbrev pub shift_up : ℕ → ℕ
shift_up a = (a + 2 ^ 31) % 2 ^ 32

-- The sign of a difference of two ints, by their bit patterns, which is undefined where it
-- overflows.
abbrev pub difference_sign : ℕ → ℕ → Option Ordering
difference_sign a b =
    if leb (shift_up b + 2 ^ 31) (shift_up a) || ltb (shift_up a + 2 ^ 31) (shift_up b)
    then none
    else some (compare (shift_up a) (shift_up b))

-- `strcmp(username, "*") == 0`
abbrev pub is_wild : Url → Bool
is_wild u = is_tie (strcmp_sign (text u.username) (b'*' ∷ []))

module _ (atoi : Bytes → ℕ) where
  abbrev pub by_username : Url → Url → Ordering
  by_username a b =
      if is_wild a || is_wild b
      then Ordering.eq
      else strcasecmp_sign (text a.username) (text b.username)

  -- `contact_compare`, by the sign of its answer; `none` where its behaviour is undefined.
  unfoldable pub contact_compare : Url → Url → Option Ordering
  unfolding strcasecmp_sign net_port
  contact_compare a b = then_if_tie (strcasecmp a.scheme b.scheme) (
      then_if_tie (strcasecmp a.host b.host) (
        then_if_tie (difference_sign (net_port atoi (some a)) (net_port atoi (some b)))
          (some (by_username a b))))

  -- `aor_record_cmp`
  unfoldable pub aor_record_cmp : AorRecord → AorRecord → Option Ordering
  unfolding contact_compare
  aor_record_cmp a b = then_if_tie (strcmp a.protocol b.protocol) (contact_compare a.url b.url)

-- A record with a protocol, whose contact has a scheme, a host, a user that is not `*`, as
-- `aor_record_new` wants it, and a port that is not negative.
pub record Plain (atoi : Bytes → ℕ) : Type 0 where
  pub record_of : AorRecord
  pub protocol : Bytes
  pub scheme : Bytes
  pub host : Bytes
  pub has_protocol : record_of.protocol ≡ some protocol
  pub has_scheme : record_of.url.scheme ≡ some scheme
  pub has_host : record_of.url.host ≡ some host
  pub not_wild : is_wild record_of.url ≡ false
  pub port_small : net_port atoi (some record_of.url) < 2 ^ 31

-- Such records by protocol, scheme, host, port and user, one after another.
abbrev pub plain_cmp : (atoi : Bytes → ℕ) → Plain atoi → Plain atoi → Ordering
plain_cmp atoi a b = then_by (strcmp_sign a.protocol b.protocol) (
    then_by (strcasecmp_sign a.scheme b.scheme) (
      then_by (strcasecmp_sign a.host b.host) (
        then_by
          (compare (net_port atoi (some a.record_of.url)) (net_port atoi (some b.record_of.url)))
          (strcasecmp_sign (text a.record_of.url.username) (text b.record_of.url.username)))))
