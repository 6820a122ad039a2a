-- ===== src/Xml/Next.antt =====
-- lib/common/xml.c: `xml_next`, one piece of a buffer. A null byte follows the buffer, as after the
-- bodies that the parser library hands over, so comparisons that look ahead stop there.
pub mod Progress
use sipecho.Common.{
  ℕ, Bool, true, false, not, ◌&&◌, ◌||◌, ◌==◌, if◌then◌else◌, Option, none, some, List, [], ◌∷◌,
  ◌++◌,
}
use sipecho.Xml.Text.{Bytes, isalnum}
use sipecho.Xml.Element.{
  ElementType, element_node, empty_node, text_node, Shape, shape_open, shape_single, shape_close,
  Tag,
}
use sipecho.Xml.Tag.{xml_tag_find}

-- The fields that `xml_next` fills, and the buffer from where it stopped.
pub record Next : Type 0 where
  pub type : ElementType
  pub shape : Shape
  pub name : Bytes
  pub content : Option Bytes
  pub tag : Option Tag
  pub rest : Bytes

abbrev pub is_prefix : Bytes → Bytes → Bool
is_prefix [] t = true
is_prefix (p ∷ ps) [] = false
is_prefix (p ∷ ps) (c ∷ t) = p == c && is_prefix ps t

-- `xml_is_closing` behind a `<`; `comment` is the name of the open element whose text is raw.
abbrev pub xml_is_closing : Option Bytes → Bytes → Bool
xml_is_closing none t = true
xml_is_closing (some name) [] = false
xml_is_closing (some name) (c ∷ t) = c == b'/' && is_prefix name t

-- The text up to the next tag, and the rest.
unfoldable pub take_text : Option Bytes → Bytes → Bytes × Bytes
take_text comment [] = ([], [])
take_text comment (c ∷ t) =
    let (text, rest) = take_text comment t in
    if c == b'<' && xml_is_closing comment t then ([], c ∷ t) else (c ∷ text, rest)

abbrev pub in_name : ℕ → Bool
in_name c = (c == b'!') || (c == b'?') || isalnum c || (c == b'_') || (c == b':') || (c == b'-')

unfoldable pub take_name : Bytes → Bytes × Bytes
take_name [] = ([], [])
take_name (c ∷ t) =
    let (name, rest) = take_name t in if in_name c then (c ∷ name, rest) else ([], c ∷ t)

-- How the loop over a tag ends: at a `<`, behind a `>`, or at the end of the buffer.
pub data TagEnd : Type 0 where
  cut : Bytes → TagEnd
  closed : Bytes → Bytes → TagEnd
  unfinished : TagEnd

abbrev pub longer : ℕ → TagEnd → TagEnd
longer c (closed content rest) = closed (c ∷ content) rest
longer c (cut rest) = cut rest
longer c unfinished = unfinished

-- The loop outside comments; `closed` has what stands before the `>`.
unfoldable pub take_tag : Bytes → TagEnd
take_tag [] = unfinished
take_tag (c ∷ t) =
    let more = longer c (take_tag t) in
    if c == b'<' then cut (c ∷ t) else if c == b'>' then closed [] t else more

-- The loop in a comment, with the two bytes before (`xml_is_comment`).
unfoldable pub skip_comment : ℕ → ℕ → Bytes → Bytes
skip_comment a b [] = []
skip_comment a b (c ∷ t) =
    let more = skip_comment b c t in if c == b'>' && (a == b'-' && b == b'-') then t else more

-- `to[-1] == '/'`: the content without the slash at its end.
abbrev pub drop_slash : Bytes → Option Bytes
drop_slash [] = none
drop_slash (c ∷ []) = if c == b'/' then some [] else none
drop_slash (c ∷ d ∷ t) = elim (drop_slash (d ∷ t)) [ none ↦ none | some s ↦ some (c ∷ s) ]

abbrev pub with_shape : Shape → Bytes → Shape × Bytes
with_shape shape_open content = elim (drop_slash content) [
  | none ↦ (shape_open, content)
  | some s ↦ (shape_single, s)
]
with_shape shape content = (shape, content)

abbrev pub nothing : Bytes → Next
nothing rest = record {
  type = empty_node;
  shape = shape_open;
  name = [];
  content = none;
  tag = none;
  rest = rest;
}

abbrev pub end_tag : Shape → Bytes → Tag → TagEnd → Next
end_tag shape name tag (cut rest) = record (nothing rest) { shape = shape; name = name }
end_tag shape name tag unfinished = record (nothing []) { shape = shape; name = name }
end_tag shape name tag (closed content rest) =
    let (shape', content') = with_shape shape content in
    record {
      type = element_node;
      shape = shape';
      name = name;
      content = some content';
      tag = some tag;
      rest = rest;
    }

abbrev pub tagged : Shape → Bytes → Bytes → Option Tag → Option Next
tagged shape name rest none = none
tagged shape name rest (some tag) = some (end_tag shape name tag (take_tag rest))

abbrev pub named_tag : Shape → Bytes × Bytes → Option Next
named_tag shape ([], rest) = some (record (nothing rest) { shape = shape })
named_tag shape (c ∷ name, rest) = tagged shape (c ∷ name) rest (xml_tag_find (c ∷ name))

abbrev pub slash_tag : Bytes → Option Next
slash_tag [] = named_tag shape_open (take_name [])
slash_tag (c ∷ t) =
    if c == b'/'
    then named_tag shape_close (take_name t)
    else named_tag shape_open (take_name (c ∷ t))

abbrev pub comment_mark : Bytes
comment_mark = b'!' ∷ b'-' ∷ b'-' ∷ []

abbrev pub drop3 : Bytes → Bytes
drop3 (a ∷ b ∷ c ∷ t) = t
drop3 t = []

-- Behind the `<` of a tag.
abbrev pub next_tag : Bytes → Option Next
next_tag t =
    if is_prefix comment_mark t
    then some (nothing (skip_comment b'-' b'-' (drop3 t)))
    else slash_tag t

abbrev pub next_piece : Bytes → Bytes × Bytes → Option Next
next_piece t (c ∷ text, rest) =
    some (record (nothing rest) { type = text_node; content = some (c ∷ text) })
next_piece [] ([], rest) = some (nothing [])
next_piece (c ∷ t) ([], rest) = next_tag t

-- `xml_next`; `none` where the search for the tag reads behind its table.
unfoldable pub xml_next : Option Bytes → Bytes → Option Next
unfolding take_text take_name take_tag skip_comment
xml_next comment t = next_piece t (take_text comment t)
