-- ===== src/Xml/Feed/Stack.antt =====
-- Every piece that `xml_feed` handles keeps the open elements and the document numbered.
use sipecho.Common.{
  ℕ, zero, suc, ◌+◌, ◌≤◌, ◌<◌, Option, none, some, List, [], ◌∷◌, length, ◌≡◌, subst, arith, ltb,
  Bool, true, false, ◌&&◌, ◌||◌, inl, inr, Bool-cases,
}
use sipecho.Xml.Text.{Bytes, xml_text_cmp, xml_text_is_empty}
use sipecho.Xml.Element.{
  ElementType, Head, Element, element, Elements, nil, cons, Tag, element_node, text_node,
  attribute_node, document_node, empty_node, Shape, shape_open, shape_single, shape_close,
}
use sipecho.Xml.Next.{Next}
use sipecho.Xml.Attribute.{text_of}
use sipecho.Xml.Attribute.Progress.{xml_node_compile_ends}
use sipecho.Xml.Feed.{
  Frame, Root, at, null, child, closed_frame, xml_element_append, parent, top, add_child, place,
  appended, open_in, feed_open, steps_to, parents, close_steps, feed_close, text_child, feed_text,
  feed_element, feed_piece, node_head, one_more, max_deep, behind_content, is_none, is_single,
  is_similar, same_tag, close_all, document_of,
}
use sipecho.Xml.Feed.Numbering.{IsDocument, Numbered, count, append-Numbered, next_id-count}
use sipecho.Xml.Feed.Rounds.{NamedAs, Kept}

abbrev pub Frames : List Frame → Frame → Type 0
Frames [] d =
    (d.head.name ≡ []) × (d.head.tag ≡ none) × (d.head.level ≡ 0) × Numbered 1 0 d.children
Frames (f ∷ fs) d =
    (f.head.level ≡ length fs + 1)
    × (f.head.level ≤ 513)
    × (f.head.id ≡ count (top fs d).children)
    × Numbered (length fs + 2) 0 f.children
    × Frames fs d

abbrev pub IsStack : Root → Type 0
IsStack (null document) = ⊥
IsStack (at fs document) = Frames fs document

-- An element that fits below the open elements.
abbrev Fits : List Frame → Frame → Element → Type 0
Fits fs d (element h attributes children) =
    (h.level ≡ length fs + 1)
    × (h.level ≤ 513)
    × (h.id ≡ count (top fs d).children)
    × Numbered (length fs + 2) 0 children

child-Numbered :
    (level : ℕ) (f : Frame) (e : Element)
    → Numbered level 0 f.children
    → Numbered level (count f.children) (cons e nil)
    → Numbered level 0 (child f e).children
child-Numbered level f e n m =
    append-Numbered level 0 f.children (cons e nil) n
      (subst (λ i. Numbered level i (cons e nil)) (omega arith) m)

add_child-IsStack :
    (fs : List Frame) (d : Frame) (e : Element)
    → Frames fs d
    → Fits fs d e
    → IsStack (add_child fs d e)
add_child-IsStack [] d (element h attributes children) n m =
    (n.0, n.1, n.2, child-Numbered 1 d (element h attributes children) n.3 (m.0, m.1, m.2, m.3, tt))
add_child-IsStack (f ∷ fs) d (element h attributes children) n m = (
  n.0,
  n.1,
  n.2,
  child-Numbered (length fs + 2) f (element h attributes children) n.3
      (omega (arith, m.0), m.1, m.2, subst (λ l. Numbered l 0 children) (omega arith) m.3, tt),
  n.4,
)

parent-IsStack :
    (f : Frame) (fs : List Frame) (d : Frame) → Frames (f ∷ fs) d → IsStack (parent (at (f ∷ fs) d))
parent-IsStack f fs d n = add_child-IsStack fs d (closed_frame f) n.4 (n.0, n.1, n.2, n.3)

parents-IsStack :
    (n : ℕ) (fs : List Frame) (d : Frame)
    → n < length fs
    → Frames fs d
    → IsStack (parents (suc n) (at fs d))
parents-IsStack n [] d h k = absurd (omega arith)
parents-IsStack zero (f ∷ fs) d h k = parent-IsStack f fs d k
parents-IsStack (suc n) (f ∷ []) d h k = absurd (omega arith)
parents-IsStack (suc n) (f ∷ g ∷ fs) d h k =
    parents-IsStack n (child g (closed_frame f) ∷ fs) d (omega arith)
      (parent-IsStack f (g ∷ fs) d k)

abbrev Below : ℕ → Option ℕ → Type 0
Below m none = Unit
Below m (some n) = n < m

one_more-Below : (m : ℕ) (o : Option ℕ) → Below m o → Below (suc m) (one_more o)
one_more-Below m none h = tt
one_more-Below m (some n) h = omega arith

text_cmp_cons : (c : ℕ) (name text : Bytes) → text ≡ [] → xml_text_cmp text (c ∷ name) ≡ true
unfolding xml_text_cmp
text_cmp_cons c name text e = rw e (ground arith)

steps_to-Below :
    (fs : List Frame) (d : Frame) (c : ℕ) (name : Bytes)
    → d.head.name ≡ []
    → Below (length fs) (steps_to fs d (c ∷ name))
steps_to-Below [] d c name e = rw (text_cmp_cons c name d.head.name e) tt
steps_to-Below (f ∷ fs) d c name e = elim (Bool-cases (xml_text_cmp f.head.name (c ∷ name))) [
  | inl b ↦
      rw b (one_more-Below (length fs) (steps_to fs d (c ∷ name)) (steps_to-Below fs d c name e))
  | inr b ↦ rw b (omega arith)
]

document-Frames :
    (fs : List Frame) (d : Frame) → Frames fs d → (d.head.name ≡ []) × (d.head.tag ≡ none)
document-Frames [] d n = (n.0, n.1)
document-Frames (f ∷ fs) d n = document-Frames fs d n.4

top-level : (fs : List Frame) (d : Frame) → Frames fs d → (top fs d).head.level ≡ length fs
top-level [] d n = n.2
top-level (f ∷ fs) d n = omega (arith, n.0)

top-Numbered :
    (fs : List Frame) (d : Frame) → Frames fs d → Numbered (length fs + 1) 0 (top fs d).children
top-Numbered [] d n = n.3
top-Numbered (f ∷ fs) d n = subst (λ l. Numbered l 0 f.children) (omega arith) n.3

level_fits : (level : ℕ) → ltb max_deep level ≡ false → level + 1 ≤ 513
level_fits level b = ground arith

-- What `xml_element_append` answers for a new node.
abbrev Appends : List Frame → Frame → Option Head → Type 0
Appends fs d none = Unit
Appends fs d (some h) =
    (h.level ≡ length fs + 1) × (h.level ≤ 513) × (h.id ≡ count (top fs d).children)

append-fits :
    (fs : List Frame) (d : Frame) (node : Next)
    → Frames fs d
    → Appends fs d (xml_element_append (top fs d) (node_head node))
unfolding xml_element_append
append-fits fs d node n = elim (Bool-cases (ltb max_deep (top fs d).head.level)) [
  | inl b ↦ rw b tt
  | inr b ↦ rw b (
    omega (arith, top-level fs d n),
    level_fits (top fs d).head.level b,
    next_id-count (length fs + 1) (top fs d).children (top-Numbered fs d n),
  )
]

close_steps-IsStack :
    (fs : List Frame) (d : Frame) (o : Option ℕ)
    → Below (length fs) o
    → Frames fs d
    → IsStack (close_steps (at fs d) o)
close_steps-IsStack fs d none h n = n
close_steps-IsStack fs d (some k) h n = parents-IsStack k fs d h n

feed_close-IsStack :
    (root : Root) (c : ℕ) (name : Bytes) → IsStack root → IsStack (feed_close root (c ∷ name))
feed_close-IsStack (null d) c name n = n
feed_close-IsStack (at fs d) c name n =
    close_steps-IsStack fs d (steps_to fs d (c ∷ name))
      (steps_to-Below fs d c name (document-Frames fs d n).0) n

text_child-IsStack :
    (fs : List Frame) (d : Frame) (o : Option Head)
    → Appends fs d o
    → Frames fs d
    → IsStack (text_child fs d o)
text_child-IsStack fs d none h n = n
text_child-IsStack fs d (some h) a n =
    add_child-IsStack fs d (element h nil nil) n (a.0, a.1, a.2, tt)

feed_text-IsStack : (root : Root) (node : Next) → IsStack root → Kept IsStack (feed_text root node)
feed_text-IsStack (null d) node n = absurd n
feed_text-IsStack (at fs d) node n =
    let added =
      text_child-IsStack fs d (xml_element_append (top fs d) (node_head node))
        (append-fits fs d node n) n in
    elim (Bool-cases (xml_text_is_empty (text_of node.content))) [
      | inl b ↦ rw b n
      | inr b ↦ rw b added
    ]

place-IsStack :
    (fs : List Frame) (d : Frame) (tag : Tag) (h : Head) (attributes : Elements)
    → Appends fs d (some h)
    → Frames fs d
    → Kept IsStack (place fs d tag h attributes)
place-IsStack fs d tag h attributes a n =
    elim (Bool-cases (is_none tag.brace || is_single h.shape)) [
      | inl b ↦ rw b (add_child-IsStack fs d (element h attributes nil) n (a.0, a.1, a.2, tt))
      | inr b ↦ rw b (a.0, a.1, a.2, tt, n)
    ]

appended-IsStack :
    (fs : List Frame) (d : Frame) (tag : Tag) (o : Option Head)
    → Appends fs d o
    → Frames fs d
    → Kept IsStack (appended fs d tag o)
appended-IsStack fs d tag none a n = n
appended-IsStack fs d tag (some h) a n =
    let (attributes, e) = xml_node_compile_ends (behind_content h.shape) h nil in
    rw e (place-IsStack fs d tag h attributes a n)

open_in-IsStack :
    (root : Root) (tag : Tag) (node : Next) → IsStack root → Kept IsStack (open_in root tag node)
open_in-IsStack (null d) tag node n = absurd n
open_in-IsStack (at fs d) tag node n =
    appended-IsStack fs d tag (xml_element_append (top fs d) (node_head node))
      (append-fits fs d node n) n

and_false : (a : Bool) → (a && false) ≡ true → ⊥
and_false a e = ground (arith, e)

similar-IsStack :
    (fs : List Frame) (d : Frame) (tag : Tag) (similar : Bool)
    → (similar && same_tag tag (top fs d).head.tag) ≡ true
    → Frames fs d
    → IsStack (parent (at fs d))
similar-IsStack [] d tag similar e n =
    absurd (and_false similar (subst (λ o. (similar && same_tag tag o) ≡ true) n.1 e))
similar-IsStack (f ∷ fs) d tag similar e n = parent-IsStack f fs d n

feed_open-IsStack :
    (root : Root) (name : Bytes) (tag : Option Tag) (node : Next)
    → NamedAs element_node name tag
    → IsStack root
    → Kept IsStack (feed_open root tag node)
feed_open-IsStack (null d) name tag node named n = absurd n
feed_open-IsStack (at fs d) [] none node named n = absurd named
feed_open-IsStack (at fs d) (c ∷ name) none node named n = absurd named
feed_open-IsStack (at fs d) name (some tag) node named n =
    elim (Bool-cases (is_similar tag.brace && same_tag tag (top fs d).head.tag)) [
      | inl b ↦ rw b (
          open_in-IsStack (parent (at fs d)) tag node
            (similar-IsStack fs d tag (is_similar tag.brace) b n))
      | inr b ↦ rw b (open_in-IsStack (at fs d) tag node n)
    ]

close_named-IsStack :
    (root : Root) (name : Bytes) (tag : Option Tag)
    → NamedAs element_node name tag
    → IsStack root
    → IsStack (feed_close root name)
close_named-IsStack root [] tag named n = absurd named
close_named-IsStack root (c ∷ name) tag named n = feed_close-IsStack root c name n

feed_element-IsStack :
    (shape : Shape) (root : Root) (node : Next)
    → NamedAs element_node node.name node.tag
    → IsStack root
    → Kept IsStack (feed_element shape root node)
feed_element-IsStack shape_close root node named n =
    close_named-IsStack root node.name node.tag named n
feed_element-IsStack shape_open root node named n =
    feed_open-IsStack root node.name node.tag node named n
feed_element-IsStack shape_single root node named n =
    feed_open-IsStack root node.name node.tag node named n

pub feed_piece-IsStack :
    (type : ElementType) (root : Root) (node : Next)
    → NamedAs type node.name node.tag
    → IsStack root
    → Kept IsStack (feed_piece type root node)
feed_piece-IsStack element_node root node named n =
    feed_element-IsStack node.shape root node named n
feed_piece-IsStack text_node root node named n = feed_text-IsStack root node n
feed_piece-IsStack attribute_node root node named n = n
feed_piece-IsStack document_node root node named n = n
feed_piece-IsStack empty_node root node named n = n

close_all-IsDocument :
    (fs : List Frame) (d : Frame) (e : Element)
    → Frames fs d
    → Fits fs d e
    → IsDocument (closed_frame (close_all fs d e))
close_all-IsDocument [] d e n m = add_child-IsStack [] d e n m
close_all-IsDocument (f ∷ fs) d e n m =
    let k = add_child-IsStack (f ∷ fs) d e n m in
    close_all-IsDocument fs d (closed_frame (child f e)) k.4 (k.0, k.1, k.2, k.3)

pub document_of-IsDocument :
    (root : Root) → IsStack root → IsDocument (closed_frame (document_of root))
document_of-IsDocument (null d) n = absurd n
document_of-IsDocument (at [] d) n = n
document_of-IsDocument (at (f ∷ fs) d) n =
    close_all-IsDocument fs d (closed_frame f) n.4 (n.0, n.1, n.2, n.3)
