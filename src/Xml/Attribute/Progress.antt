-- ===== src/Xml/Attribute/Progress.antt =====
-- Every scan for an attribute leaves less of the content, so the loops over it end.
use sipecho.Common.{ℕ, zero, suc, ◌≤◌, Option, none, some, [], ◌∷◌, length, ◌≡◌, ◌≢◌, refl, arith}
use sipecho.Xml.Text.{Bytes}
use sipecho.Xml.Element.{
  ElementType, Head, Elements, nil, cons, attribute_node, document_node, element_node, empty_node,
  text_node,
}
use sipecho.Xml.Attribute.{
  quoted_value, unquoted_value, want_value, want_equals, attribute_name, after_name,
  xml_attribute_next, compile, xml_node_compile, find_key, xml_text_find_key2, prepend, text_of,
  compile_type,
}

length-quoted_value :
    (reject : Option Bytes) (q : ℕ) (t : Bytes) → length (quoted_value reject q t).1 ≤ length t
unfolding quoted_value
length-quoted_value reject q [] = ground arith
length-quoted_value reject q (c ∷ t) = ground (arith, length-quoted_value reject q t)

length-unquoted_value :
    (reject : Option Bytes) (t : Bytes) → length (unquoted_value reject t).1 ≤ length t
unfolding unquoted_value
length-unquoted_value reject [] = ground arith
length-unquoted_value reject (c ∷ t) = ground (arith, length-unquoted_value reject t)

length-want_value :
    (reject : Option Bytes) (behind : ℕ) (name t : Bytes)
    → length (want_value reject behind name t).rest ≤ length t
unfolding want_value
length-want_value reject behind name [] = ground arith
length-want_value reject behind name (c ∷ t) = ground (
  arith,
  length-want_value reject behind name t,
  length-quoted_value reject c t,
  length-unquoted_value reject t,
)

length-want_equals :
    (reject : Option Bytes) (behind : ℕ) (name t : Bytes)
    → length (want_equals reject behind name t).rest ≤ length t
unfolding want_equals
length-want_equals reject behind name [] = ground arith
length-want_equals reject behind name (c ∷ t) =
    ground (arith, length-want_equals reject behind name t, length-want_value reject behind name t)

length-attribute_name : (t : Bytes) → length (attribute_name t).1 ≤ length t
unfolding attribute_name
length-attribute_name [] = ground arith
length-attribute_name (c ∷ t) = ground (arith, length-attribute_name t)

length-after_name :
    (reject : Option Bytes) (behind : ℕ) (name t : Bytes)
    → length (after_name reject behind (name, t)).rest ≤ length t
length-after_name reject behind name [] = ground arith
length-after_name reject behind name (c ∷ t) =
    ground (arith, length-want_value reject behind name t, length-want_equals reject behind name t)

length-next :
    (reject : Option Bytes) (behind c : ℕ) (t : Bytes)
    → length (xml_attribute_next reject behind (c ∷ t)).rest ≤ length t
unfolding xml_attribute_next
length-next reject behind c [] = ground (
  arith,
  length-after_name reject behind (c ∷ (attribute_name []).0) (attribute_name []).1,
  length-attribute_name [],
)
length-next reject behind c (d ∷ t) = ground (
  arith,
  length-next reject behind d t,
  length-after_name reject behind (c ∷ (attribute_name (d ∷ t)).0) (attribute_name (d ∷ t)).1,
  length-attribute_name (d ∷ t),
)

compile_ends :
    (rounds behind : ℕ) (content : Bytes) (done : Elements)
    → length content ≤ rounds
    → (all : Elements) × compile rounds behind content done ≡ some all
unfolding compile
compile_ends rounds behind [] done h = (done, refl)
compile_ends zero behind (c ∷ t) done h = absurd (omega arith)
compile_ends (suc rounds) behind (c ∷ t) done h =
    let scan = xml_attribute_next none behind (c ∷ t) in
    compile_ends rounds behind scan.rest (prepend scan.attribute done)
      (omega (arith, length-next none behind c t))

compile_type_ends :
    (type : ElementType) (behind : ℕ) (content : Bytes)
    → (all : Elements) × compile_type type behind content ≡ some all
compile_type_ends element_node behind content =
    compile_ends (length content) behind content nil (omega arith)
compile_type_ends attribute_node behind content = (nil, refl)
compile_type_ends document_node behind content = (nil, refl)
compile_type_ends empty_node behind content = (nil, refl)
compile_type_ends text_node behind content = (nil, refl)

-- An element's content is always taken apart: the loop over its attributes ends.
pub xml_node_compile_ends :
    (behind : ℕ) (h : Head) (done : Elements)
    → (all : Elements) × xml_node_compile behind h done ≡ some all
unfolding xml_node_compile
xml_node_compile_ends behind h (cons a done) = (cons a done, refl)
xml_node_compile_ends behind h nil = compile_type_ends h.type behind (text_of h.content)

find_key_ends :
    (rounds : ℕ) (key : Bytes) (reject : Option Bytes) (behind : ℕ) (t : Bytes)
    → length t ≤ rounds
    → find_key rounds key reject behind t ≢ none
unfolding find_key
find_key_ends rounds key reject behind [] h = λ e. ground (arith, e)
find_key_ends zero key reject behind (c ∷ t) h = absurd (omega arith)
find_key_ends (suc rounds) key reject behind (c ∷ t) h =
    let scan = xml_attribute_next reject behind (c ∷ t) in
    ground (
      arith,
      find_key_ends rounds key reject behind scan.rest
          (omega (arith, length-next reject behind c t)),
    )

-- Looking up an attribute's value ends, whatever the text, the key and the rejected bytes.
pub xml_text_find_key2_ends :
    (text : Bytes) (behind : ℕ) (key : Bytes) (reject : Option Bytes)
    → xml_text_find_key2 text behind key reject ≢ none
unfolding xml_text_find_key2
xml_text_find_key2_ends text behind key reject =
    find_key_ends (length text) key reject behind text (omega arith)
