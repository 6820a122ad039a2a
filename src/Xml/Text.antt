-- ===== src/Xml/Text.antt =====
-- lib/common/xml.c: texts and their comparison. A text is its bytes; the character classes of the C
-- library are those of ASCII.
use sipecho.Common.{
  ℕ, ◌+◌, Bool, true, false, not, ◌&&◌, ◌||◌, leb, ◌==◌, if◌then◌else◌, List, [], ◌∷◌, length,
}

abbrev pub Bytes : Type 0
Bytes = List ℕ

abbrev pub is_upper : ℕ → Bool
is_upper c = leb b'A' c && leb c b'Z'

abbrev pub is_lower : ℕ → Bool
is_lower c = leb b'a' c && leb c b'z'

abbrev pub isdigit : ℕ → Bool
isdigit c = leb b'0' c && leb c b'9'

abbrev pub isalpha : ℕ → Bool
isalpha c = is_upper c || is_lower c

abbrev pub isalnum : ℕ → Bool
isalnum c = isalpha c || isdigit c

-- Tab to carriage return, and blank.
abbrev pub isspace : ℕ → Bool
isspace c = (leb 9 c && leb c 13) || (c == 32)

-- Printed, but neither blank nor letter nor digit.
abbrev pub ispunct : ℕ → Bool
ispunct c = (leb 33 c && leb c 126) && not (isalnum c)

unfoldable pub tolower : ℕ → ℕ
tolower c = if is_upper c then c + 32 else c

-- `xml_text_cmp` of texts of one length: false where it answers 0.
unfoldable pub differ : Bytes → Bytes → Bool
unfolding tolower
differ [] b = false
differ (x ∷ a) [] = false
differ (x ∷ a) (y ∷ b) = not (tolower x == tolower y) || differ a b

-- `xml_text_cmp`: its callers ask only whether it answers 0, which is false here.
unfoldable pub xml_text_cmp : Bytes → Bytes → Bool
unfolding differ
xml_text_cmp a b = if length a == length b then differ a b else true

-- `xml_text_is_empty`
unfoldable pub xml_text_is_empty : Bytes → Bool
xml_text_is_empty [] = true
xml_text_is_empty (c ∷ t) = isspace c && xml_text_is_empty t
