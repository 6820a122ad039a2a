-- ===== src/Xml/Seed/Print.antt =====
-- `xml_seed` writes the text of a document if there is room for it, and nothing past the buffer.
use native.Mathlib.Nat.{add_assoc}
use sipecho.Common.{
  ℕ, ◌+◌, ◌≤◌, true, false, ltb, ◌==◌, if◌then◌else◌, Bool-cases, Option, none, some, [], ◌∷◌, ◌++◌,
  length, length-append, ◌≡◌, refl, sym, ◌∙◌, inl, inr, arith, subst, append_assoc, append-nil,
}
use sipecho.Xml.Text.{Bytes}
use sipecho.Xml.Element.{
  ElementType, attribute_node, document_node, element_node, empty_node, text_node, Shape,
  shape_open, shape_single, shape_close, Head, Element, element, Elements, nil, cons,
}
use sipecho.Xml.Seed.{
  Out, W, resume, ◌>>◌, skip, space, equals, less, slash, greater, question, put, put_quote,
  put_content, put_single, put_text, seed_begin, seed_end_tag, seed_end, seed_node, seed_nodes,
  xml_seed,
}

-- The text of a document, written without a limit.
module _ (quote : ℕ) where
  abbrev pub print_quote : Bytes
  print_quote = if quote == 0 then [] else quote ∷ []

  abbrev pub print_content : Option Bytes → Bytes
  print_content none = []
  print_content (some t) = equals ∷ (print_quote ++ (t ++ print_quote))

  abbrev pub print_single : Shape → Bytes → Bytes
  print_single shape_single [] = slash ∷ []
  print_single shape_single (c ∷ t) = (if c == question then question else slash) ∷ []
  print_single _ name = []

  abbrev pub print_text : Option Bytes → Bytes
  print_text none = []
  print_text (some t) = t

  abbrev pub print_begin : ElementType → Head → Bytes → Bytes
  print_begin attribute_node h attributes = space ∷ (h.name ++ print_content h.content)
  print_begin element_node h attributes =
      less ∷ (h.name ++ (attributes ++ (print_single h.shape h.name ++ (greater ∷ []))))
  print_begin text_node h attributes = print_text h.content
  print_begin _ h attributes = []

  abbrev pub print_end_tag : Shape → Bytes → Bytes
  print_end_tag shape_single name = []
  print_end_tag _ name = less ∷ slash ∷ (name ++ (greater ∷ []))

  abbrev pub print_end : ElementType → Head → Bytes
  print_end element_node h = print_end_tag h.shape h.name
  print_end _ h = []

  unfoldable mutual
    pub print_node : Element → Bytes
    print_node (element h attributes children) =
        print_begin h.type h (print_nodes attributes)
        ++ (print_nodes children ++ print_end h.type h)

    pub print_nodes : Elements → Bytes
    print_nodes nil = []
    print_nodes (cons e es) = print_node e ++ print_nodes es

module _ (max : ℕ) where
  -- A step that writes a text.
  abbrev Puts : W → Bytes → Type 0
  Puts f t = (o : Out) → o.len ≤ max → f o ≡ put max t o

  skip-Puts : Puts skip []
  unfolding put
  skip-Puts o h = ground (arith, append-nil o.written)

  put-Puts : (t : Bytes) → Puts (put max t) t
  put-Puts t o h = refl

  put_fits :
      (t : Bytes) (o : Out)
      → ltb max (o.len + length t) ≡ false
      → put max t o ≡ some (record { written = o.written ++ t; len = o.len + length t })
  unfolding put
  put_fits t o e = rw e refl

  put_full : (t : Bytes) (o : Out) → ltb max (o.len + length t) ≡ true → put max t o ≡ none
  unfolding put
  put_full t o e = rw e refl

  put-append : (a b : Bytes) (o : Out) → (put max a >> put max b) o ≡ put max (a ++ b) o
  put-append a b o = elim (Bool-cases (ltb max (o.len + length a))) [
    | inl e ↦ rw (put_full a o e) (sym (put_full (a ++ b) o (ground (arith, length-append a b))))
    | inr e ↦ rw (put_fits a o e) (elim (Bool-cases (ltb max (o.len + length a + length b))) [
      | inl e' ↦ put_full b _ e' ∙ sym (put_full (a ++ b) o (ground (arith, length-append a b)))
      | inr e' ↦
          put_fits b _ e'
          ∙ rw (append_assoc o.written a b) (
              rw (add_assoc o.len (length a) (length b), ← length-append a b)
                (sym (put_fits (a ++ b) o (ground (arith, length-append a b)))))
    ])
  ]

  put-len : (t : Bytes) (o o' : Out) → put max t o ≡ some o' → o'.len ≤ max
  unfolding put
  put-len t o o' e = elim (Bool-cases (ltb max (o.len + length t))) [
    | inl q ↦ cc (put_full t o q)
    | inr q ↦
        let same : some o' ≡ some (record { written = o.written ++ t; len = o.len + length t }) =
          sym e ∙ put_fits t o q in
        ground (arith, same)
  ]

  then-Puts : (f g : W) (a b : Bytes) → Puts f a → Puts g b → Puts (f >> g) (a ++ b)
  then-Puts f g a b hf hg o h = rw (hf o h) (after (put max a o) refl) ∙ put-append a b o
    where
      after : (r : Option Out) → put max a o ≡ r → resume r g ≡ resume r (put max b)
      after none e = refl
      after (some o') e = hg o' (put-len a o o' e)

module _ (max quote : ℕ) where
  put_quote-Puts : Puts max (put_quote max quote) (print_quote quote)
  put_quote-Puts = elim (Bool-cases (quote == 0)) [
    | inl e ↦ rw e (skip-Puts max)
    | inr e ↦ rw e (put-Puts max (quote ∷ []))
  ]

  put_content-Puts : (t : Option Bytes) → Puts max (put_content max quote t) (print_content quote t)
  put_content-Puts none = skip-Puts max
  put_content-Puts (some t) =
      subst (λ b. Puts max (put_content max quote (some t)) b) (simp append_assoc)
        (then-Puts max _ _ ((equals ∷ print_quote quote) ++ t) (print_quote quote)
          (then-Puts max _ _ (equals ∷ print_quote quote) t
            (then-Puts max _ _ (equals ∷ []) (print_quote quote) (put-Puts max _) put_quote-Puts)
            (put-Puts max t))
          put_quote-Puts)

  put_single-Puts :
      (s : Shape) (name : Bytes)
      → Puts max (put_single max quote s name) (print_single quote s name)
  put_single-Puts shape_single [] = put-Puts max _
  put_single-Puts shape_single (c ∷ t) = put-Puts max _
  put_single-Puts shape_open name = skip-Puts max
  put_single-Puts shape_close name = skip-Puts max

  put_text-Puts : (t : Option Bytes) → Puts max (put_text max quote t) (print_text quote t)
  put_text-Puts none = skip-Puts max
  put_text-Puts (some t) = put-Puts max t

  seed_begin-Puts :
      (k : ElementType) (h : Head) (w : W) (t : Bytes)
      → Puts max w t
      → Puts max (seed_begin max quote k h w) (print_begin quote k h t)
  seed_begin-Puts attribute_node h w t p =
      then-Puts max _ _ (space ∷ h.name) (print_content quote h.content)
        (then-Puts max _ _ (space ∷ []) h.name (put-Puts max _) (put-Puts max _))
        (put_content-Puts h.content)
  seed_begin-Puts document_node h w t p = skip-Puts max
  seed_begin-Puts element_node h w t p =
      subst (λ b. Puts max (seed_begin max quote element_node h w) b) (simp append_assoc)
        (then-Puts max _ _ (((less ∷ h.name) ++ t) ++ print_single quote h.shape h.name)
          (greater ∷ [])
          (then-Puts max _ _ ((less ∷ h.name) ++ t) (print_single quote h.shape h.name)
            (then-Puts max _ _ (less ∷ h.name) t
              (then-Puts max _ _ (less ∷ []) h.name (put-Puts max _) (put-Puts max _)) p)
            (put_single-Puts h.shape h.name))
          (put-Puts max _))
  seed_begin-Puts empty_node h w t p = skip-Puts max
  seed_begin-Puts text_node h w t p = put_text-Puts h.content

  end_tag-Puts :
      (name : Bytes)
      → Puts max
          (put max (less ∷ []) >> put max (slash ∷ []) >> put max name >> put max (greater ∷ []))
          (less ∷ slash ∷ (name ++ (greater ∷ [])))
  end_tag-Puts name =
      then-Puts max _ _ (less ∷ slash ∷ name) (greater ∷ [])
        (then-Puts max _ _ (less ∷ slash ∷ []) name
          (then-Puts max _ _ (less ∷ []) (slash ∷ []) (put-Puts max _) (put-Puts max _))
          (put-Puts max _))
        (put-Puts max _)

  seed_end_tag-Puts :
      (s : Shape) (name : Bytes)
      → Puts max (seed_end_tag max quote s name) (print_end_tag quote s name)
  seed_end_tag-Puts shape_single name = skip-Puts max
  seed_end_tag-Puts shape_open name = end_tag-Puts name
  seed_end_tag-Puts shape_close name = end_tag-Puts name

  seed_end-Puts :
      (k : ElementType) (h : Head) → Puts max (seed_end max quote k h) (print_end quote k h)
  seed_end-Puts attribute_node h = skip-Puts max
  seed_end-Puts document_node h = skip-Puts max
  seed_end-Puts element_node h = seed_end_tag-Puts h.shape h.name
  seed_end-Puts empty_node h = skip-Puts max
  seed_end-Puts text_node h = skip-Puts max

  mutual
    unfolding seed_nodes seed_node print_nodes print_node

    seed_node-Puts : (e : Element) → Puts max (seed_node max quote e) (print_node quote e)
    seed_node-Puts (element h attributes children) =
        subst (λ b. Puts max (seed_node max quote (element h attributes children)) b)
          (simp append_assoc)
          (then-Puts max _ _
            (print_begin quote h.type h (print_nodes quote attributes)
              ++ print_nodes quote children)
            (print_end quote h.type h)
            (then-Puts max _ _ (print_begin quote h.type h (print_nodes quote attributes))
              (print_nodes quote children)
              (seed_begin-Puts h.type h _ _ (seed_nodes-Puts attributes))
              (seed_nodes-Puts children))
            (seed_end-Puts h.type h))

    seed_nodes-Puts : (es : Elements) → Puts max (seed_nodes max quote es) (print_nodes quote es)
    seed_nodes-Puts nil = skip-Puts max
    seed_nodes-Puts (cons e es) =
        then-Puts max _ _ (print_node quote e) (print_nodes quote es) (seed_node-Puts e)
          (seed_nodes-Puts es)

  -- `xml_seed` writes the text of the document if that has `max` bytes at most, and else answers -1.
  pub xml_seed-print_nodes :
      (es : Elements)
      → xml_seed max quote es
        ≡ (if ltb max (length (print_nodes quote es)) then none else some (print_nodes quote es))
  unfolding xml_seed
  xml_seed-print_nodes es =
      let start : Out = record { written = []; len = 0 } in
      let text = print_nodes quote es in
      rw (seed_nodes-Puts es start (omega arith)) (elim (Bool-cases (ltb max (length text))) [
        | inl full ↦ rw (full, put_full max text start (ground arith)) refl
        | inr fits ↦ rw (fits, put_fits max text start (ground arith)) refl
      ])
