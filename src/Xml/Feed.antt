-- ===== src/Xml/Feed.antt =====
-- lib/common/xml.c: `xml_feed`. The element that `root` points to and its parents are frames: their
-- fields, attributes and finished children. An element joins its parent's children when it is
-- closed, which the code does when it opens it; until then the parent gets no other child.
-- Allocations succeed.
pub mod Numbering
mod Rounds
mod Stack
pub mod Invariant
use sipecho.Common.{
  ℕ, zero, suc, ◌+◌, Bool, true, false, not, ◌&&◌, ◌||◌, ltb, ◌==◌, if◌then◌else◌, Option, none,
  some, List, [], ◌∷◌, length,
}
use sipecho.Xml.Text.{Bytes, xml_text_cmp, xml_text_is_empty}
use sipecho.Xml.Element.{
  ElementType, attribute_node, document_node, element_node, empty_node, text_node, Shape,
  shape_open, shape_single, shape_close, Brace, brace_mandatory, brace_similar, brace_none,
  brace_any, Block, block_follow, block_comment, Tag, Head, blank, Element, element, Elements, nil,
  cons, append,
}
use sipecho.Xml.Next.{Next, xml_next}
use sipecho.Xml.Attribute.{text_of, xml_node_compile}

-- An element whose end has not come.
pub record Frame : Type 0 where
  pub head : Head
  pub attributes : Elements
  pub children : Elements

-- `root`, or null; and the document.
pub data Root : Type 0 where
  at : List Frame → Frame → Root
  null : Frame → Root

-- `node` at the start of a round: its parent is `comment`, or null.
pub record State : Type 0 where
  pub root : Root
  pub comment : Option Bytes

-- How `xml_feed` ends: with 0 or with -1 and the document, at a null pointer, behind the table of
-- tags, or not in the rounds given.
pub data Fed : Type 0 where
  fed : Bool → Element → Fed
  null_pointer beyond_table out_of_rounds : Fed

pub data Round : Type 0 where
  go_on : State → Round
  refuse : Root → Round
  at_null at_rounds : Round

-- `xml_max_DEEP`
abbrev pub max_deep : ℕ
max_deep = 512

abbrev pub child : Frame → Element → Frame
child f e = record f { children = append f.children (cons e nil) }

abbrev pub closed_frame : Frame → Element
closed_frame f = element f.head f.attributes f.children

-- `root->last->id`
abbrev pub last_id : Elements → Option ℕ
last_id nil = none
last_id (cons (element h attributes children) nil) = some h.id
last_id (cons e (cons x xs)) = last_id (cons x xs)

abbrev pub next_id : Option ℕ → ℕ → ℕ
next_id none id = id
next_id (some i) id = i + 1

abbrev pub linked : Frame → Head → Head
linked f h = record h { level = f.head.level + 1; id = next_id (last_id f.children) h.id }

-- `xml_element_append`: the new element, unless it would be too deep.
unfoldable pub xml_element_append : Frame → Head → Option Head
xml_element_append f h = if ltb max_deep f.head.level then none else some (linked f h)

abbrev pub add_child : List Frame → Frame → Element → Root
add_child [] document e = at [] (child document e)
add_child (f ∷ fs) document e = at (child f e ∷ fs) document

-- `root->parent`
abbrev pub parent : Root → Root
parent (at [] document) = null document
parent (at (f ∷ fs) document) = add_child fs document (closed_frame f)
parent (null document) = null document

abbrev pub top : List Frame → Frame → Frame
top [] document = document
top (f ∷ fs) document = f

-- `node.tag == root->tag`, pointers to the rows of one table, which have different names.
abbrev pub same_tag : Tag → Option Tag → Bool
same_tag tag none = false
same_tag tag (some other) = not (xml_text_cmp tag.name other.name)

abbrev pub is_similar : Brace → Bool
is_similar brace_similar = true
is_similar brace = false

abbrev pub is_none : Brace → Bool
is_none brace_none = true
is_none brace = false

abbrev pub is_single : Shape → Bool
is_single shape_single = true
is_single shape = false

abbrev pub comment_of : Block → Bytes → Option Bytes
comment_of block_comment name = some name
comment_of block_follow name = none

-- The byte behind the content of a tag.
abbrev pub behind_content : Shape → ℕ
behind_content shape_single = b'/'
behind_content shape = b'>'

abbrev pub node_head : Next → Head
node_head node = record blank {
  type = node.type;
  shape = node.shape;
  name = node.name;
  content = node.content;
  tag = node.tag;
}

-- An element that has its attributes: opened, or left behind as a child without children.
abbrev pub place : List Frame → Frame → Tag → Head → Elements → Round
place fs document tag h attributes =
    if is_none tag.brace || is_single h.shape
    then go_on (record { root = add_child fs document (element h attributes nil); comment = none })
    else go_on (record {
      root = at (record { head = h; attributes = attributes; children = nil } ∷ fs) document;
      comment = comment_of tag.block h.name;
    })

abbrev pub compiled : List Frame → Frame → Tag → Head → Option Elements → Round
compiled fs document tag h none = at_rounds
compiled fs document tag h (some attributes) = place fs document tag h attributes

abbrev pub appended : List Frame → Frame → Tag → Option Head → Round
appended fs document tag none = refuse (at fs document)
appended fs document tag (some h) =
    compiled fs document tag h (xml_node_compile (behind_content h.shape) h nil)

abbrev pub open_in : Root → Tag → Next → Round
open_in (null document) tag node = at_null
open_in (at fs document) tag node =
    appended fs document tag (xml_element_append (top fs document) (node_head node))

-- `xml_element_node`, open or single.
abbrev pub feed_open : Root → Option Tag → Next → Round
feed_open (null document) tag node = refuse (null document)
feed_open (at fs document) none node = at_null
feed_open (at fs document) (some tag) node =
    if is_similar tag.brace && same_tag tag (top fs document).head.tag
    then open_in (parent (at fs document)) tag node
    else open_in (at fs document) tag node

abbrev pub one_more : Option ℕ → Option ℕ
one_more none = none
one_more (some n) = some (suc n)

-- How many steps up the first element with this name is.
abbrev pub steps_to : List Frame → Frame → Bytes → Option ℕ
steps_to [] document name = if xml_text_cmp document.head.name name then none else some 0
steps_to (f ∷ fs) document name =
    let further = one_more (steps_to fs document name) in
    if xml_text_cmp f.head.name name then further else some 0

abbrev pub parents : ℕ → Root → Root
parents zero root = root
parents (suc n) root = parents n (parent root)

abbrev pub close_steps : Root → Option ℕ → Root
close_steps root none = root
close_steps root (some n) = parents (suc n) root

-- `xml_element_node`, closing.
abbrev pub feed_close : Root → Bytes → Root
feed_close (null document) name = null document
feed_close (at fs document) name = close_steps (at fs document) (steps_to fs document name)

abbrev pub text_child : List Frame → Frame → Option Head → Root
text_child fs document none = at fs document
text_child fs document (some h) = add_child fs document (element h nil nil)

-- `xml_text_node`: a blank text is dropped, and one that would be too deep.
abbrev pub feed_text : Root → Next → Round
feed_text (null document) node =
    if xml_text_is_empty (text_of node.content)
    then go_on (record { root = null document; comment = none })
    else at_null
feed_text (at fs document) node =
    let added = text_child fs document (xml_element_append (top fs document) (node_head node)) in
    go_on (record {
      root = if xml_text_is_empty (text_of node.content) then at fs document else added;
      comment = none;
    })

abbrev pub feed_element : Shape → Root → Next → Round
feed_element shape_close root node =
    go_on (record { root = feed_close root node.name; comment = none })
feed_element shape root node = feed_open root node.tag node

abbrev pub feed_piece : ElementType → Root → Next → Round
feed_piece element_node root node = feed_element node.shape root node
feed_piece text_node root node = feed_text root node
feed_piece type root node = go_on (record { root = root; comment = none })

abbrev pub close_all : List Frame → Frame → Element → Frame
close_all [] document e = child document e
close_all (f ∷ fs) document e = close_all fs document (closed_frame (child f e))

-- The document, with what is still open in it.
abbrev pub document_of : Root → Frame
document_of (null document) = document
document_of (at [] document) = document
document_of (at (f ∷ fs) document) = close_all fs document (closed_frame f)

-- The end of a round; the buffer from here is fed on.
abbrev pub after_round : (State → Bytes → Fed) → Bytes → Round → Fed
after_round feed rest (go_on s) = feed s rest
after_round feed rest (refuse root) = fed false (closed_frame (document_of root))
after_round feed rest at_null = null_pointer
after_round feed rest at_rounds = out_of_rounds

abbrev pub after_next : (State → Bytes → Fed) → Root → Option Next → Fed
after_next feed root none = beyond_table
after_next feed root (some node) = after_round feed node.rest (feed_piece node.type root node)

-- `xml_feed` in so many rounds.
unfoldable pub feed_rounds : ℕ → State → Bytes → Fed
unfolding xml_next xml_element_append xml_node_compile
feed_rounds rounds s [] = fed true (closed_frame (document_of s.root))
feed_rounds zero s (c ∷ t) = out_of_rounds
feed_rounds (suc rounds) s (c ∷ t) =
    after_next (feed_rounds rounds) s.root (xml_next s.comment (c ∷ t))

abbrev pub start : Head → Elements → Elements → State
start h attributes children = record {
  root = at [] (record { head = h; attributes = attributes; children = children });
  comment = none;
}

-- `xml_feed`; each round takes a byte at least.
unfoldable pub xml_feed : Element → Bytes → Fed
unfolding feed_rounds
xml_feed (element h attributes children) buff =
    feed_rounds (length buff) (start h attributes children) buff

-- `xml_init` on an empty document
abbrev pub xml_init : Element
xml_init = element (record blank { type = document_node }) nil nil
