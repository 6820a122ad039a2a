-- ===== src/Xml/Tests.antt =====
-- Small documents and texts, with the theorems about them.
use sipecho.Common.{
  ℕ, Bool, false, if◌then◌else◌, ltb, ◌==◌, Option, none, some, [], ◌∷◌, length, ◌≡◌, ◌≢◌, ◌≤◌, ◌↔◌,
  refl, arith,
}
use sipecho.Xml.Text.{Bytes, xml_text_is_empty, xml_text_cmp}
use sipecho.Xml.Element.{
  element_node, attribute_node, shape_single, blank, Element, element, Elements, nil, cons,
}
use sipecho.Xml.Tag.{xml_tag_find, BeginsWithB, xml_tag_find-BeginsWithB}
use sipecho.Xml.Seed.{xml_seed}
use sipecho.Xml.Seed.Print.{print_nodes, xml_seed-print_nodes}
use sipecho.Xml.Escape.{xml_text_escape2, xml_text_unescape}
use sipecho.Xml.Escape.RoundTrip.{xml_text_unescape-escape2, xml_text_escape2-le}
use sipecho.Xml.Attribute.{xml_node_compile, xml_text_find_key2}
use sipecho.Xml.Attribute.Progress.{xml_text_find_key2_ends}
use sipecho.Xml.Feed.{Fed, fed, beyond_table, xml_feed, xml_init}
use sipecho.Xml.Feed.Numbering.{IsDocument}
use sipecho.Xml.Feed.Invariant.{FedDocument, IsFreeOfB, xml_feed-IsDocument, xml_feed-IsFreeOfB}

-- `<a x="1">hi</a>`
abbrev greeting : Bytes
greeting =
    b'<' ∷ b'a' ∷ 32 ∷ b'x' ∷ b'=' ∷ b'"' ∷ b'1' ∷ b'"' ∷ b'>' ∷ b'h' ∷ b'i' ∷ b'<' ∷ b'/' ∷ b'a'
    ∷ b'>' ∷ []

-- `x=1 y`
abbrev pairs : Bytes
pairs = b'x' ∷ b'=' ∷ b'1' ∷ 32 ∷ b'y' ∷ []

abbrev attribute_x : Element
attribute_x =
    element (record blank { type = attribute_node; name = b'x' ∷ []; content = some (b'1' ∷ []) })
      nil nil

-- `<a x="1"/>`
abbrev single_a : Elements
single_a =
    cons
      (element (record blank { type = element_node; shape = shape_single; name = b'a' ∷ [] })
        (cons attribute_x nil) nil)
      nil

-- What is read is written again.
abbrev written : Fed → Option Bytes
written (fed ok (element h attributes children)) = xml_seed 100 b'"' children
written other = none

fed_and_written : written (xml_feed xml_init greeting) ≡ some greeting
unfolding xml_feed xml_seed xml_tag_find xml_text_is_empty xml_text_cmp
fed_and_written = refl

bold_is_beyond : xml_feed xml_init (b'<' ∷ b'b' ∷ b'>' ∷ []) ≡ beyond_table
unfolding xml_feed xml_tag_find
bold_is_beyond = refl

value_of_x : xml_text_find_key2 pairs 0 (b'X' ∷ []) none ≡ some (some (b'1' ∷ []))
unfolding xml_text_find_key2 xml_text_cmp
value_of_x = refl

attributes_reversed :
    xml_node_compile b'>' (record blank { type = element_node; content = some pairs }) nil
    ≡ some (
        cons
          (element
            (record blank { type = attribute_node; shape = shape_single; name = b'y' ∷ [] })
            nil
            nil)
          (cons attribute_x nil))
unfolding xml_node_compile
attributes_reversed = refl

no_room : xml_seed 9 b'"' single_a ≡ none
unfolding xml_seed
no_room = refl

past_the_end : length (xml_text_escape2 (32 ∷ []) 1) ≡ 3
unfolding xml_text_escape2
past_the_end = refl

percent_is_lost :
    xml_text_unescape (xml_text_escape2 (b'%' ∷ b'4' ∷ b'1' ∷ []) 9) 9 ≡ some (b'A' ∷ [])
unfolding xml_text_escape2 xml_text_unescape
percent_is_lost = refl

xml_init-IsDocument : IsDocument xml_init
xml_init-IsDocument = (refl, refl, refl, tt)

differs : (a b : ℕ) → (a == b) ≡ false → a ≢ b
differs a b h = ground (arith, h)

xml_feed-IsDocument_example : FedDocument (xml_feed xml_init greeting)
xml_feed-IsDocument_example = xml_feed-IsDocument xml_init greeting xml_init-IsDocument

xml_tag_find-BeginsWithB_example : (xml_tag_find (b'B' ∷ []) ≡ none) ↔ BeginsWithB (b'B' ∷ [])
xml_tag_find-BeginsWithB_example = xml_tag_find-BeginsWithB (b'B' ∷ [])

xml_text_find_key2_ends_example : xml_text_find_key2 pairs 0 (b'y' ∷ []) none ≢ none
xml_text_find_key2_ends_example = xml_text_find_key2_ends pairs 0 (b'y' ∷ []) none

xml_seed-print_nodes_example : xml_seed 20 b'"' single_a ≡ (
    if ltb 20 (length (print_nodes b'"' single_a)) then none else some (print_nodes b'"' single_a))
xml_seed-print_nodes_example = xml_seed-print_nodes 20 b'"' single_a

xml_text_escape2-le_example : length (xml_text_escape2 greeting 4) ≤ 6
xml_text_escape2-le_example = xml_text_escape2-le 4 greeting

xml_text_unescape-escape2_example :
    xml_text_unescape (xml_text_escape2 (b'a' ∷ 32 ∷ []) 6) 2 ≡ some (b'a' ∷ 32 ∷ [])
xml_text_unescape-escape2_example =
    xml_text_unescape-escape2 2 6 (b'a' ∷ 32 ∷ [])
      (
        omega arith,
        (λ e. ground (arith, e)),
        (λ e. ground (arith, e)),
        (omega arith, (λ e. ground (arith, e)), (λ e. ground (arith, e)), tt),
      )
      (omega arith) (omega arith)

abbrev single_tag : Bytes
single_tag = b'<' ∷ b'a' ∷ b'/' ∷ b'>' ∷ []

single_tag-IsFreeOfB : IsFreeOfB single_tag
single_tag-IsFreeOfB = (
  differs 60 98 refl,
  differs 60 66 refl,
  (
    differs 97 98 refl,
    differs 97 66 refl,
    (differs 47 98 refl, differs 47 66 refl, (differs 62 98 refl, differs 62 66 refl, tt)),
  ),
)

xml_feed-IsFreeOfB_example :
    (ok : Bool) × (e : Element) × (xml_feed xml_init single_tag ≡ fed ok e) × IsDocument e
xml_feed-IsFreeOfB_example =
    xml_feed-IsFreeOfB xml_init single_tag xml_init-IsDocument single_tag-IsFreeOfB
