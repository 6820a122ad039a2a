-- ===== src/Xml/Seed.antt =====
-- lib/common/xml.c: `xml_seed`, which writes a document into a buffer.
pub mod Print
use sipecho.Common.{
  ℕ, ◌+◌, Bool, true, false, ltb, ◌==◌, if◌then◌else◌, Option, none, some, List, [], ◌∷◌, ◌++◌,
  length,
}
use sipecho.Xml.Text.{Bytes}
use sipecho.Xml.Element.{
  ElementType, attribute_node, document_node, element_node, empty_node, text_node, Shape,
  shape_open, shape_single, shape_close, Head, Element, element, Elements, nil, cons,
}

-- What has been written into the buffer, and `len`.
pub record Out : Type 0 where
  pub written : Bytes
  pub len : ℕ

-- A step of the writing, `none` where it answers -1.
abbrev pub W : Type 0
W = Out → Option Out

-- `if (...) return -1` around a step.
abbrev pub resume : Option Out → W → Option Out
resume none g = none
resume (some o) g = g o

infixl 5 ◌>>◌
abbrev pub ◌>>◌ : W → W → W
◌>>◌ f g o = resume (f o) g

abbrev pub skip : W
skip o = some o

abbrev pub space : ℕ
space = 32

abbrev pub equals : ℕ
equals = b'='

abbrev pub less : ℕ
less = b'<'

abbrev pub slash : ℕ
slash = b'/'

abbrev pub greater : ℕ
greater = b'>'

abbrev pub question : ℕ
question = b'?'

module _ (max : ℕ) where
  -- `xml_seed_LENGTH`, and the copy that follows it.
  unfoldable pub put : Bytes → W
  put t o =
      let len = o.len + length t in
      if ltb max len then none else some (record { written = o.written ++ t; len = len })

module _ (max quote : ℕ) where
  -- `if (seed->quote)`
  abbrev pub put_quote : W
  put_quote = if quote == 0 then skip else put max (quote ∷ [])

  abbrev pub put_content : Option Bytes → W
  put_content none = skip
  put_content (some t) = put max (equals ∷ []) >> put_quote >> put max t >> put_quote

  -- `seed->buff[0] = node->name.value[0] == '?' ? '?' : '/'`
  abbrev pub closing_mark : Bytes → ℕ
  closing_mark [] = slash
  closing_mark (c ∷ t) = if c == question then question else slash

  abbrev pub put_single : Shape → Bytes → W
  put_single shape_single name = put max (closing_mark name ∷ [])
  put_single _ name = skip

  abbrev pub put_text : Option Bytes → W
  put_text none = skip
  put_text (some t) = put max t

  -- `__callback_node_seed` with `end` 0, by the node's type; `attributes` writes its attributes.
  abbrev pub seed_begin : ElementType → Head → W → W
  seed_begin attribute_node h attributes =
      put max (space ∷ []) >> put max h.name >> put_content h.content
  seed_begin document_node h attributes = skip
  seed_begin element_node h attributes =
      put max (less ∷ [])
      >> put max h.name
      >> attributes
      >> put_single h.shape h.name
      >> put max (greater ∷ [])
  seed_begin empty_node h attributes = skip
  seed_begin text_node h attributes = put_text h.content

  abbrev pub seed_end_tag : Shape → Bytes → W
  seed_end_tag shape_single name = skip
  seed_end_tag _ name =
      put max (less ∷ []) >> put max (slash ∷ []) >> put max name >> put max (greater ∷ [])

  -- `__callback_node_seed` with `end` 1.
  abbrev pub seed_end : ElementType → Head → W
  seed_end element_node h = seed_end_tag h.shape h.name
  seed_end _ h = skip

  -- `xml_node_walk` with `__callback_node_seed`.
  unfoldable mutual
    pub seed_node : Element → W
    seed_node (element h attributes children) =
        seed_begin h.type h (seed_nodes attributes) >> seed_nodes children >> seed_end h.type h

    pub seed_nodes : Elements → W
    seed_nodes nil = skip
    seed_nodes (cons e es) = seed_node e >> seed_nodes es

  abbrev pub seeded : Option Out → Option Bytes
  seeded none = none
  seeded (some o) = some o.written

  -- `xml_seed`, with what it has written in place of its length; `none` stands for -1.
  unfoldable pub xml_seed : Elements → Option Bytes
  unfolding seed_nodes put
  xml_seed children = seeded (seed_nodes children (record { written = []; len = 0 }))
