-- ===== src/Xml/Next/Progress.antt =====
-- `xml_next` takes a byte at least, and what it leaves has no bytes but those of the buffer.
use sipecho.Common.{ℕ, Option, none, some, [], ◌∷◌, ◌≡◌, refl, sym, arith, subst}
use sipecho.Xml.Text.{Bytes}
use sipecho.Xml.Element.{Shape, shape_open, shape_close, Tag}
use sipecho.Xml.Tag.{xml_tag_find}
use sipecho.Xml.Next.{
  Next, take_text, take_name, TagEnd, cut, closed, unfinished, take_tag, skip_comment, end_tag,
  tagged, named_tag, slash_tag, next_tag, xml_next, drop3, longer,
}

abbrev rest_of : TagEnd → Bytes
rest_of (cut rest) = rest
rest_of (closed content rest) = rest
rest_of unfinished = []

rest_of-longer : (c : ℕ) (e : TagEnd) → rest_of (longer c e) ≡ rest_of e
rest_of-longer c (cut rest) = refl
rest_of-longer c (closed content rest) = refl
rest_of-longer c unfinished = refl

rest-end_tag :
    (shape : Shape) (name : Bytes) (tag : Tag) (e : TagEnd)
    → (end_tag shape name tag e).rest ≡ rest_of e
rest-end_tag shape name tag (cut rest) = refl
rest-end_tag shape name tag (closed content rest) = refl
rest-end_tag shape name tag unfinished = refl

-- What is left of a piece, if there is one.
abbrev pub Leaves : (Bytes → Type 0) → Option Next → Type 0
Leaves P none = Unit
Leaves P (some node) = P node.rest

-- A property of a buffer that holds of its ends too holds of what a piece leaves.
module _ (P : Bytes → Type 0) (end : P []) (tail : (c : ℕ) (t : Bytes) → P (c ∷ t) → P t) where
  take_text-Leaves : (comment : Option Bytes) (t : Bytes) → P t → P (take_text comment t).1
  unfolding take_text
  take_text-Leaves comment [] h = h
  take_text-Leaves comment (c ∷ t) h = ground (arith, take_text-Leaves comment t (tail c t h), h)

  take_name-Leaves : (t : Bytes) → P t → P (take_name t).1
  unfolding take_name
  take_name-Leaves [] h = h
  take_name-Leaves (c ∷ t) h = ground (arith, take_name-Leaves t (tail c t h), h)

  skip_comment-Leaves : (a b : ℕ) (t : Bytes) → P t → P (skip_comment a b t)
  unfolding skip_comment
  skip_comment-Leaves a b [] h = h
  skip_comment-Leaves a b (c ∷ t) h =
      ground (arith, skip_comment-Leaves b c t (tail c t h), tail c t h)

  take_tag-Leaves : (t : Bytes) → P t → P (rest_of (take_tag t))
  unfolding take_tag
  take_tag-Leaves [] h = end
  take_tag-Leaves (c ∷ t) h = ground (
    arith,
    subst P (sym (rest_of-longer c (take_tag t))) (take_tag-Leaves t (tail c t h)),
    h,
    tail c t h,
  )

  tagged-Leaves :
      (shape : Shape) (name rest : Bytes) (o : Option Tag)
      → P rest
      → Leaves P (tagged shape name rest o)
  tagged-Leaves shape name rest none h = tt
  tagged-Leaves shape name rest (some tag) h =
      subst P (sym (rest-end_tag shape name tag (take_tag rest))) (take_tag-Leaves rest h)

  named_tag-Leaves :
      (shape : Shape) (name rest : Bytes) → P rest → Leaves P (named_tag shape (name, rest))
  named_tag-Leaves shape [] rest h = h
  named_tag-Leaves shape (c ∷ name) rest h =
      tagged-Leaves shape (c ∷ name) rest (xml_tag_find (c ∷ name)) h

  slash_tag-Leaves : (t : Bytes) → P t → Leaves P (slash_tag t)
  slash_tag-Leaves [] h =
      named_tag-Leaves shape_open (take_name []).0 (take_name []).1 (take_name-Leaves [] h)
  slash_tag-Leaves (c ∷ t) h = ground (
    arith,
    named_tag-Leaves shape_close (take_name t).0 (take_name t).1 (take_name-Leaves t (tail c t h)),
    named_tag-Leaves shape_open (take_name (c ∷ t)).0 (take_name (c ∷ t)).1
        (take_name-Leaves (c ∷ t) h),
  )

  drop3-Leaves : (t : Bytes) → P t → P (drop3 t)
  drop3-Leaves [] h = end
  drop3-Leaves (a ∷ []) h = end
  drop3-Leaves (a ∷ b ∷ []) h = end
  drop3-Leaves (a ∷ b ∷ c ∷ t) h = tail c t (tail b (c ∷ t) (tail a (b ∷ c ∷ t) h))

  next_tag-Leaves : (t : Bytes) → P t → Leaves P (next_tag t)
  next_tag-Leaves t h =
      ground
        (arith, slash_tag-Leaves t h, skip_comment-Leaves b'-' b'-' (drop3 t) (drop3-Leaves t h))

  -- A piece of a buffer, which takes its first byte at least.
  pub xml_next-Leaves :
      (comment : Option Bytes) (c : ℕ) (t : Bytes) → P t → Leaves P (xml_next comment (c ∷ t))
  unfolding xml_next take_text
  xml_next-Leaves comment c t h = ground (arith, next_tag-Leaves t h, take_text-Leaves comment t h)
