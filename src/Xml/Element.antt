-- ===== src/Xml/Element.antt =====
-- lib/common/xml.h: elements. A list of elements is a chain of `next` pointers; `parent` and `last`
-- follow from where an element stands. A text whose pointer is null is `none`.
use sipecho.Common.{ℕ, [], Option, none}
use sipecho.Xml.Text.{Bytes}

-- `xml_type_t`
pub data ElementType : Type 0 where
  attribute_node document_node element_node empty_node text_node : ElementType

-- `xml_shape_t`
pub data Shape : Type 0 where
  shape_open shape_single shape_close : Shape

-- `xml_brace_t`
pub data Brace : Type 0 where
  brace_mandatory brace_similar brace_none brace_any : Brace

-- `xml_block_t`
pub data Block : Type 0 where
  block_follow block_comment : Block

-- `xml_tag_t`
pub record Tag : Type 0 where
  pub name : Bytes
  pub brace : Brace
  pub block : Block

-- The fields of `xml_element_t` that are not pointers to other elements.
pub record Head : Type 0 where
  pub id : ℕ
  pub level : ℕ
  pub shape : Shape
  pub type : ElementType
  pub name : Bytes
  pub content : Option Bytes
  pub tag : Option Tag

-- `xml_element_t`: its fields, its attributes and its children.
mutual
  pub data Element : Type 0 where
    element : Head → Elements → Elements → Element

  pub data Elements : Type 0 where
    nil : Elements
    cons : Element → Elements → Elements

-- `xml_element_INITIALIZER`
abbrev pub blank : Head
blank = record {
  id = 0;
  level = 0;
  shape = shape_open;
  type = empty_node;
  name = [];
  content = none;
  tag = none;
}

abbrev pub append : Elements → Elements → Elements
append nil ys = ys
append (cons x xs) ys = cons x (append xs ys)
