-- ===== src/Xml/Escape/RoundTrip.antt =====
-- Escaping and back, and how much `xml_text_escape2` writes.
use sipecho.Common.{
  if◌then◌else◌, false, ℕ, zero, suc, ◌+◌, ◌*◌, ◌/◌, ◌%◌, ◌≤◌, ◌<◌, Bool, true, ◌||◌, ltb, ltb→lt,
  lt→ltb, ◌==◌, ==_iff, ne_eq, Bool-cases, some, [], ◌∷◌, ◌++◌, length, length-append, ◌≡◌, ◌≢◌,
  refl, sym, ◌∙◌, inl, inr, arith,
}
use sipecho.Xml.Text.{Bytes, isalnum, ispunct}
use sipecho.Xml.Escape.{
  percent, plus, hex_digit, escaped, escape_from, xml_text_escape2, strtol_hex, cons_some,
  unescape_from, xml_text_unescape,
}

-- Bytes other than `%` and `+`, which are not escaped, but are read as escapes.
abbrev pub IsClear : Bytes → Type 0
IsClear [] = Unit
IsClear (c ∷ t) = (c < 256) × (c ≢ percent) × (c ≢ plus) × IsClear t

-- The two digits of a byte are read as that byte.
reads_back : ℕ → Bool
reads_back c = strtol_hex (hex_digit (c / 16)) (hex_digit (c % 16)) == c

bytes_read_back : ℕ → Bool
bytes_read_back zero = true
bytes_read_back (suc c) = if reads_back c then bytes_read_back c else false

bytes_read_back-each :
    (bound c : ℕ) → c < bound → bytes_read_back bound ≡ true → reads_back c ≡ true
unfolding bytes_read_back
bytes_read_back-each zero c lt h = absurd (omega arith)
bytes_read_back-each (suc bound) c lt h = ground (arith, bytes_read_back-each bound c, h)

every_byte : bytes_read_back 256 ≡ true
unfolding bytes_read_back reads_back
every_byte = refl

strtol_hex-hex_digit : (c : ℕ) → c < 256 → strtol_hex (hex_digit (c / 16)) (hex_digit (c % 16)) ≡ c
unfolding reads_back
strtol_hex-hex_digit c lt = (==_iff _ c).0 (bytes_read_back-each 256 c lt every_byte)

unescape_plain :
    (size l c : ℕ) (t : Bytes)
    → l < size
    → c ≢ percent
    → c ≢ plus
    → unescape_from size l (c ∷ t) ≡ cons_some c (unescape_from size (l + 1) t)
unfolding unescape_from
unescape_plain size l c [] h n m =
    rw (lt→ltb l size h, ne_eq c percent (λ e. n (sym e)), ne_eq c plus (λ e. m (sym e))) refl
unescape_plain size l c (a ∷ []) h n m =
    rw (lt→ltb l size h, ne_eq c percent (λ e. n (sym e)), ne_eq c plus (λ e. m (sym e))) refl
unescape_plain size l c (a ∷ b ∷ t) h n m =
    rw (lt→ltb l size h, unescape_from)
      (rw (ne_eq c percent (λ e. n (sym e)), unescape_from)
        (rw (ne_eq c plus (λ e. m (sym e))) refl))

unescape_digits :
    (size l c : ℕ) (t : Bytes)
    → l < size
    → c < 256
    → unescape_from size l (percent ∷ hex_digit (c / 16) ∷ hex_digit (c % 16) ∷ t)
      ≡ cons_some c (unescape_from size (l + 1) t)
unfolding unescape_from
unescape_digits size l c t h b =
    rw (lt→ltb l size h, unescape_from) (rw (strtol_hex-hex_digit c b) refl)

length-escaped : (c : ℕ) → length (escaped c) ≤ 3
length-escaped c = ground arith

-- One byte, escaped or not, is read as that byte.
unescape-escaped :
    (size l c : ℕ) (t : Bytes)
    → l < size
    → c < 256
    → c ≢ percent
    → c ≢ plus
    → unescape_from size l (escaped c ++ t) ≡ cons_some c (unescape_from size (l + 1) t)
unescape-escaped size l c t h b n m = elim (Bool-cases (isalnum c || ispunct c)) [
  | inl e ↦ rw e (unescape_plain size l c t h n m)
  | inr e ↦ rw e (unescape_digits size l c t h b)
]

unescape-escape_from :
    (size k room l : ℕ) (t : Bytes)
    → IsClear t
    → l + 3 * length t ≤ room
    → k + length t ≤ size
    → unescape_from size k (escape_from room l t) ≡ some t
unfolding escape_from unescape_from
unescape-escape_from size k room l [] h p q = refl
unescape-escape_from size k room l (c ∷ t) h p q = rw (lt→ltb l room (omega arith)) (
    unescape-escaped size k c (escape_from room (l + length (escaped c)) t) (omega arith) h.0 h.1
      h.2
    ∙ rw
        (unescape-escape_from size (k + 1) room (l + length (escaped c)) t h.3
          (omega (arith, length-escaped c)) (omega arith))
        refl)

-- A text without `%` and `+` comes back from `xml_text_escape2` and `xml_text_unescape`, if the
-- first has room for three bytes for each of the text and the second for the text.
pub xml_text_unescape-escape2 :
    (size room : ℕ) (t : Bytes)
    → IsClear t
    → 3 * length t ≤ room
    → length t ≤ size
    → xml_text_unescape (xml_text_escape2 t room) size ≡ some t
unfolding xml_text_escape2 xml_text_unescape
xml_text_unescape-escape2 size room t h p q =
    unescape-escape_from size 0 room 0 t h (omega arith) (omega arith)

length-escape_from :
    (size l : ℕ) (t : Bytes) → l ≤ size + 2 → l + length (escape_from size l t) ≤ size + 2
unfolding escape_from
length-escape_from size l [] h = omega arith
length-escape_from size l (c ∷ t) h = elim (Bool-cases (ltb l size)) [
  | inl e ↦ rw e (
      omega (
        arith,
        ltb→lt l size e,
        length-escaped c,
        length-escape_from size (l + length (escaped c)) t
            (omega (arith, ltb→lt l size e, length-escaped c)),
        length-append (escaped c) (escape_from size (l + length (escaped c)) t),
      ))
  | inr e ↦ rw e (omega arith)
]

-- `xml_text_escape2` writes at most two bytes more than it was given room for, besides the null
-- byte behind an escape.
pub xml_text_escape2-le : (size : ℕ) (t : Bytes) → length (xml_text_escape2 t size) ≤ size + 2
unfolding xml_text_escape2
xml_text_escape2-le size t = omega (arith, length-escape_from size 0 t (omega arith))
