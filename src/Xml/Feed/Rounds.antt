-- ===== src/Xml/Feed/Rounds.antt =====
-- The rounds of `xml_feed`: what each keeps, all keep, and the rounds that it has suffice.
use sipecho.Common.{ℕ, zero, suc, ◌≤◌, Option, none, some, [], ◌∷◌, length, ◌≡◌, refl, arith}
use sipecho.Xml.Text.{Bytes}
use sipecho.Xml.Element.{Shape, shape_open, shape_close, Tag, ElementType, element_node}
use sipecho.Xml.Tag.{xml_tag_find}
use sipecho.Xml.Next.{
  Next, take_text, take_name, TagEnd, cut, closed, unfinished, take_tag, end_tag, tagged, named_tag,
  slash_tag, next_tag, next_piece, xml_next,
}
use sipecho.Xml.Next.Progress.{Leaves, xml_next-Leaves}
use sipecho.Xml.Feed.{
  Root, State, Fed, fed, null_pointer, beyond_table, out_of_rounds, Round, go_on, refuse, at_null,
  at_rounds, feed_piece, after_round, after_next, feed_rounds, closed_frame, document_of,
}

-- An element has a name and a tag.
abbrev pub NamedAs : ElementType → Bytes → Option Tag → Type 0
NamedAs element_node (c ∷ name) (some tag) = Unit
NamedAs element_node name tag = ⊥
NamedAs type name tag = Unit

abbrev pub IsNamed : Next → Type 0
IsNamed node = NamedAs node.type node.name node.tag

abbrev AllNamed : Option Next → Type 0
AllNamed none = Unit
AllNamed (some node) = IsNamed node

end_tag-IsNamed :
    (shape : Shape) (c : ℕ) (name : Bytes) (tag : Tag) (e : TagEnd)
    → IsNamed (end_tag shape (c ∷ name) tag e)
end_tag-IsNamed shape c name tag (cut rest) = tt
end_tag-IsNamed shape c name tag (closed content rest) = tt
end_tag-IsNamed shape c name tag unfinished = tt

tagged-IsNamed :
    (shape : Shape) (c : ℕ) (name rest : Bytes) (o : Option Tag)
    → AllNamed (tagged shape (c ∷ name) rest o)
tagged-IsNamed shape c name rest none = tt
tagged-IsNamed shape c name rest (some tag) = end_tag-IsNamed shape c name tag (take_tag rest)

named_tag-IsNamed : (shape : Shape) (name rest : Bytes) → AllNamed (named_tag shape (name, rest))
named_tag-IsNamed shape [] rest = tt
named_tag-IsNamed shape (c ∷ name) rest = tagged-IsNamed shape c name rest (xml_tag_find (c ∷ name))

slash_tag-IsNamed : (t : Bytes) → AllNamed (slash_tag t)
slash_tag-IsNamed [] = named_tag-IsNamed shape_open (take_name []).0 (take_name []).1
slash_tag-IsNamed (c ∷ t) = ground (
  arith,
  named_tag-IsNamed shape_close (take_name t).0 (take_name t).1,
  named_tag-IsNamed shape_open (take_name (c ∷ t)).0 (take_name (c ∷ t)).1,
)

next_tag-IsNamed : (t : Bytes) → AllNamed (next_tag t)
next_tag-IsNamed t = ground (arith, slash_tag-IsNamed t, tt)

next_piece-IsNamed : (t text rest : Bytes) → AllNamed (next_piece t (text, rest))
next_piece-IsNamed t (c ∷ text) rest = tt
next_piece-IsNamed [] [] rest = tt
next_piece-IsNamed (c ∷ t) [] rest = next_tag-IsNamed t

xml_next-IsNamed : (comment : Option Bytes) (t : Bytes) → AllNamed (xml_next comment t)
unfolding xml_next
xml_next-IsNamed comment t = next_piece-IsNamed t (take_text comment t).0 (take_text comment t).1

-- What a round leaves has the property, and no null pointer was met.
abbrev pub Kept : (Root → Type 0) → Round → Type 0
Kept P (go_on s) = P s.root
Kept P (refuse root) = P root
Kept P at_null = ⊥
Kept P at_rounds = ⊥

-- The document stands for a root with the property; the search for a tag may have left its table.
abbrev pub KeptFed : (Root → Type 0) → Fed → Type 0
KeptFed P (fed ok e) = (root : Root) × P root × (e ≡ closed_frame (document_of root))
KeptFed P beyond_table = Unit
KeptFed P null_pointer = ⊥
KeptFed P out_of_rounds = ⊥

abbrev Leaving : Bytes → Option Next → Type 0
Leaving t o = Leaves (λ rest. length rest ≤ length t) o

module _ (P : Root → Type 0)
    (keeps : (root : Root) (node : Next)
      → IsNamed node
      → P root
      → Kept P (feed_piece node.type root node)) where
  Keeps : (State → Bytes → Fed) → ℕ → Type 0
  Keeps feed rounds = (s : State) (t : Bytes) → length t ≤ rounds → P s.root → KeptFed P (feed s t)

  after_round-Keeps :
      (feed : State → Bytes → Fed) (rounds : ℕ)
      → Keeps feed rounds
      → (rest : Bytes) → length rest ≤ rounds
      → (r : Round) → Kept P r
      → KeptFed P (after_round feed rest r)
  unfolding Keeps
  after_round-Keeps feed rounds k rest h (go_on s) p = k s rest h p
  after_round-Keeps feed rounds k rest h (refuse root) p = (root, p, refl)
  after_round-Keeps feed rounds k rest h at_null p = p
  after_round-Keeps feed rounds k rest h at_rounds p = p

  after_next-Keeps :
      (feed : State → Bytes → Fed) (rounds : ℕ)
      → Keeps feed rounds
      → (t : Bytes) → length t ≤ rounds
      → (root : Root) → P root
      → (o : Option Next) → AllNamed o
      → Leaving t o
      → KeptFed P (after_next feed root o)
  after_next-Keeps feed rounds k t h root p none named leaves = tt
  after_next-Keeps feed rounds k t h root p (some node) named leaves =
      after_round-Keeps feed rounds k node.rest (omega arith) (feed_piece node.type root node)
        (keeps root node named p)

  pub feed_rounds_keeps :
      (rounds : ℕ) (s : State) (t : Bytes)
      → length t ≤ rounds
      → P s.root
      → KeptFed P (feed_rounds rounds s t)
  unfolding feed_rounds Keeps
  feed_rounds_keeps rounds s [] h p = (s.root, p, refl)
  feed_rounds_keeps zero s (c ∷ t) h p = absurd (omega arith)
  feed_rounds_keeps (suc rounds) s (c ∷ t) h p =
      after_next-Keeps (feed_rounds rounds) rounds (λ s t. feed_rounds_keeps rounds s t) t
        (omega arith) s.root p (xml_next s.comment (c ∷ t)) (xml_next-IsNamed s.comment (c ∷ t))
        (xml_next-Leaves (λ rest. length rest ≤ length t) (omega arith) (λ c u h. omega arith)
          s.comment c t (omega arith))
