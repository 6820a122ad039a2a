-- ===== src/Net.antt =====
-- src/net.c: the port of a uri.
pub mod Port
pub mod Lexical
mod Tests
use sipecho.Common.{
  Bool, true, false, ℕ, if◌then◌else◌, Option, none, some, List, [], ◌∷◌, Ordering,
}
use Prim.Native.Nat.{compare}
use sipecho.Xml.Text.{Bytes, tolower}

-- The second answer where the first is a tie.
abbrev pub then_by : Ordering → Ordering → Ordering
then_by Ordering.eq o = o
then_by Ordering.lt o = Ordering.lt
then_by Ordering.gt o = Ordering.gt

-- The sign of `strcmp`, of the C library: bytes in order, and a text before those that it begins.
unfoldable pub strcmp_sign : Bytes → Bytes → Ordering
strcmp_sign [] [] = Ordering.eq
strcmp_sign [] (d ∷ b) = Ordering.lt
strcmp_sign (c ∷ a) [] = Ordering.gt
strcmp_sign (c ∷ a) (d ∷ b) = then_by (compare c d) (strcmp_sign a b)

abbrev pub lower : Bytes → Bytes
lower [] = []
lower (c ∷ t) = tolower c ∷ lower t

-- The sign of `strcasecmp`.
unfoldable pub strcasecmp_sign : Bytes → Bytes → Ordering
unfolding strcmp_sign tolower
strcasecmp_sign a b = strcmp_sign (lower a) (lower b)

abbrev pub is_tie : Ordering → Bool
is_tie Ordering.eq = true
is_tie o = false

-- The fields of `osip_uri_t` that are read here.
pub record Url : Type 0 where
  pub scheme : Option Bytes
  pub username : Option Bytes
  pub host : Option Bytes
  pub port : Option Bytes

abbrev pub sip : Bytes
sip = b'S' ∷ b'I' ∷ b'P' ∷ []

abbrev pub sips : Bytes
sips = b'S' ∷ b'I' ∷ b'P' ∷ b'S' ∷ []

-- `atoi` of the C library, as the bit pattern of an int.
module _ (atoi : Bytes → ℕ) where
  -- `net_port2`
  unfoldable pub net_port2 : Option Bytes → Option Bytes → ℕ
  unfolding strcasecmp_sign
  net_port2 scheme (some port) = atoi port
  net_port2 none none = 0
  net_port2 (some scheme) none =
      if is_tie (strcasecmp_sign sip scheme)
      then if is_tie (strcasecmp_sign sips scheme) then 0 else 5061
      else 5060

  -- `net_port`
  unfoldable pub net_port : Option Url → ℕ
  unfolding net_port2
  net_port none = 0
  net_port (some u) = net_port2 u.scheme u.port
