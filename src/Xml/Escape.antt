-- ===== src/Xml/Escape.antt =====
-- lib/common/xml.c: `xml_text_escape2` and `xml_text_unescape`.
pub mod RoundTrip
use sipecho.Common.{
  ℕ, ◌+◌, ◌-◌, ◌*◌, ◌/◌, ◌%◌, Bool, true, false, ◌&&◌, ◌||◌, ltb, leb, ◌==◌, if◌then◌else◌, Option,
  none, some, List, [], ◌∷◌, ◌++◌, length,
}
use sipecho.Xml.Text.{Bytes, isdigit, isalnum, ispunct, isspace}

abbrev pub percent : ℕ
percent = b'%'

abbrev pub plus : ℕ
plus = b'+'

-- A digit of "%02X".
abbrev pub hex_digit : ℕ → ℕ
hex_digit d = if ltb d 10 then 48 + d else 55 + d

-- What one byte becomes.
abbrev pub escaped : ℕ → Bytes
escaped c =
    if isalnum c || ispunct c
    then c ∷ []
    else percent ∷ hex_digit (c / 16) ∷ hex_digit (c % 16) ∷ []

-- The loop of `xml_text_escape2` from `l` on, with `size` bytes of room. The null byte that
-- `sprintf` writes behind an escape is overwritten, or stands after the text.
unfoldable pub escape_from : ℕ → ℕ → Bytes → Bytes
escape_from size l [] = []
escape_from size l (c ∷ t) =
    let rest = escape_from size (l + length (escaped c)) t in
    if ltb l size then escaped c ++ rest else []

unfoldable pub xml_text_escape2 : Bytes → ℕ → Bytes
unfolding escape_from
xml_text_escape2 t size = escape_from size 0 t

-- The value of a hexadecimal digit, and 16 for any other character.
abbrev pub hex_value : ℕ → ℕ
hex_value c =
    if isdigit c
    then c - 48
    else if leb b'A' c && leb c b'F'
    then c - 55
    else if leb b'a' c && leb c b'f'
    then c - 87
    else 16

-- `strtol(hex, NULL, 16)` at two characters, as a byte.
abbrev pub strtol_hex : ℕ → ℕ → ℕ
strtol_hex a b =
    if ltb (hex_value a) 16
    then if ltb (hex_value b) 16 then hex_value a * 16 + hex_value b else hex_value a
    else if (isspace a || (a == plus)) && ltb (hex_value b) 16
    then hex_value b
    else if (a == b'-') && ltb (hex_value b) 16
    then (256 - hex_value b) % 256
    else 0

abbrev pub unescaped : ℕ → ℕ
unescaped c = if c == plus then 32 else c

abbrev pub cons_some : ℕ → Option Bytes → Option Bytes
cons_some c none = none
cons_some c (some t) = some (c ∷ t)

-- The loop of `xml_text_unescape` from `l` on; `none` where it reads behind the text.
unfoldable pub unescape_from : ℕ → ℕ → Bytes → Option Bytes
unescape_from size l [] = some []
unescape_from size l (c ∷ []) =
    if ltb l size then if c == percent then none else some (unescaped c ∷ []) else some []
unescape_from size l (c ∷ a ∷ []) =
    let rest = unescape_from size (l + 1) (a ∷ []) in
    if ltb l size then if c == percent then none else cons_some (unescaped c) rest else some []
unescape_from size l (c ∷ a ∷ b ∷ t) = elim (ltb l size) [
  | false ↦ some []
  | true ↦ elim (c == percent) [
    | true ↦ cons_some (strtol_hex a b) (unescape_from size (l + 1) t)
    | false ↦ cons_some (unescaped c) (unescape_from size (l + 1) (a ∷ b ∷ t))
  ]
]

unfoldable pub xml_text_unescape : Bytes → ℕ → Option Bytes
unfolding unescape_from
xml_text_unescape t size = unescape_from size 0 t
