-- ===== src/Xml/Feed/Invariant.antt =====
-- What holds of `xml_feed` on every buffer, and on those without a `b`.
use sipecho.Common.{
  ℕ, zero, suc, Option, none, some, [], ◌∷◌, length, ◌≡◌, ◌≢◌, refl, sym, subst, arith, Bool, inl,
  inr,
}
use sipecho.Xml.Text.{Bytes}
use sipecho.Xml.Element.{Element, element, Shape, shape_open, shape_close, Tag}
use sipecho.Xml.Tag.{BeginsWithB, xml_tag_find, xml_tag_find-BeginsWithB}
use sipecho.Xml.Next.{
  Next, take_text, take_name, tagged, named_tag, slash_tag, next_tag, next_piece, xml_next,
}
use sipecho.Xml.Next.Progress.{Leaves, xml_next-Leaves}
use sipecho.Xml.Feed.{
  Root, State, Fed, fed, null_pointer, beyond_table, out_of_rounds, Round, go_on, refuse, at_null,
  at_rounds, feed_piece, after_round, after_next, feed_rounds, start, xml_feed,
}
use sipecho.Xml.Feed.Rounds.{KeptFed, feed_rounds_keeps}
use sipecho.Xml.Feed.Numbering.{IsDocument}
use sipecho.Xml.Feed.Stack.{IsStack, feed_piece-IsStack, document_of-IsDocument}

-- The document is numbered, and neither a null pointer was met nor the rounds ran out.
abbrev pub FedDocument : Fed → Type 0
FedDocument (fed ok e) = IsDocument e
FedDocument beyond_table = Unit
FedDocument null_pointer = ⊥
FedDocument out_of_rounds = ⊥

KeptFed-FedDocument : (r : Fed) → KeptFed IsStack r → FedDocument r
KeptFed-FedDocument (fed ok e) (root, n, h) =
    subst IsDocument (sym h) (document_of-IsDocument root n)
KeptFed-FedDocument beyond_table h = tt
KeptFed-FedDocument null_pointer h = h
KeptFed-FedDocument out_of_rounds h = h

-- Feeding a buffer to a well-formed document ends, dereferences no null pointer, and leaves a
-- well-formed document: each level is one more than the parent's and at most 513, and siblings are
-- numbered from 0. Only the search for a tag may read behind its table.
pub xml_feed-IsDocument : (e : Element) (t : Bytes) → IsDocument e → FedDocument (xml_feed e t)
unfolding xml_feed
xml_feed-IsDocument (element h attributes children) t d =
    KeptFed-FedDocument (xml_feed (element h attributes children) t) (
      feed_rounds_keeps IsStack (λ root node. feed_piece-IsStack node.type root node) (length t)
        (start h attributes children) t (omega arith) d)

-- No byte is a `b`, small or capital.
abbrev pub IsFreeOfB : Bytes → Type 0
IsFreeOfB [] = Unit
IsFreeOfB (c ∷ t) = (c ≢ b'b') × (c ≢ b'B') × IsFreeOfB t

free_tail : (c : ℕ) (t : Bytes) → IsFreeOfB (c ∷ t) → IsFreeOfB t
free_tail c t h = h.2

take_name-IsFreeOfB : (t : Bytes) → IsFreeOfB t → IsFreeOfB (take_name t).0
unfolding take_name
take_name-IsFreeOfB [] h = tt
take_name-IsFreeOfB (c ∷ t) h = ground (arith, take_name-IsFreeOfB t h.2, h)

abbrev IsSome : Option Next → Type 0
IsSome none = ⊥
IsSome (some node) = Unit

tagged-IsSome :
    (shape : Shape) (name rest : Bytes) (o : Option Tag)
    → o ≢ none
    → IsSome (tagged shape name rest o)
tagged-IsSome shape name rest none h = h refl
tagged-IsSome shape name rest (some tag) h = tt

free-BeginsWithB : (name : Bytes) → IsFreeOfB name → BeginsWithB name → ⊥
free-BeginsWithB [] h b = b
free-BeginsWithB (c ∷ name) h (inl e) = h.0 e
free-BeginsWithB (c ∷ name) h (inr e) = h.1 e

named_tag-IsSome :
    (shape : Shape) (name rest : Bytes) → IsFreeOfB name → IsSome (named_tag shape (name, rest))
named_tag-IsSome shape [] rest h = tt
named_tag-IsSome shape (c ∷ name) rest h =
    tagged-IsSome shape (c ∷ name) rest (xml_tag_find (c ∷ name))
      (λ e. free-BeginsWithB (c ∷ name) h ((xml_tag_find-BeginsWithB (c ∷ name)).0 e))

slash_tag-IsSome : (t : Bytes) → IsFreeOfB t → IsSome (slash_tag t)
slash_tag-IsSome [] h =
    named_tag-IsSome shape_open (take_name []).0 (take_name []).1 (take_name-IsFreeOfB [] h)
slash_tag-IsSome (c ∷ t) h = ground (
  arith,
  named_tag-IsSome shape_close (take_name t).0 (take_name t).1 (take_name-IsFreeOfB t h.2),
  named_tag-IsSome shape_open (take_name (c ∷ t)).0 (take_name (c ∷ t)).1
      (take_name-IsFreeOfB (c ∷ t) h),
)

next_tag-IsSome : (t : Bytes) → IsFreeOfB t → IsSome (next_tag t)
next_tag-IsSome t h = ground (arith, slash_tag-IsSome t h, tt)

next_piece-IsSome : (t text rest : Bytes) → IsFreeOfB t → IsSome (next_piece t (text, rest))
next_piece-IsSome t (c ∷ text) rest h = tt
next_piece-IsSome [] [] rest h = tt
next_piece-IsSome (c ∷ t) [] rest h = next_tag-IsSome t h.2

xml_next-IsSome : (comment : Option Bytes) (t : Bytes) → IsFreeOfB t → IsSome (xml_next comment t)
unfolding xml_next
xml_next-IsSome comment t h = next_piece-IsSome t (take_text comment t).0 (take_text comment t).1 h

InTable : (State → Bytes → Fed) → Type 0
InTable feed = (s : State) (t : Bytes) → IsFreeOfB t → feed s t ≢ beyond_table

after_round-InTable :
    (feed : State → Bytes → Fed)
    → InTable feed
    → (rest : Bytes) → IsFreeOfB rest
    → (r : Round) → after_round feed rest r ≢ beyond_table
unfolding InTable
after_round-InTable feed k rest h (go_on s) = k s rest h
after_round-InTable feed k rest h (refuse root) = λ e. ground (arith, e)
after_round-InTable feed k rest h at_null = λ e. ground (arith, e)
after_round-InTable feed k rest h at_rounds = λ e. ground (arith, e)

after_next-InTable :
    (feed : State → Bytes → Fed)
    → InTable feed
    → (root : Root) (o : Option Next) → IsSome o
    → Leaves IsFreeOfB o
    → after_next feed root o ≢ beyond_table
after_next-InTable feed k root none h l = absurd h
after_next-InTable feed k root (some node) h l =
    after_round-InTable feed k node.rest l (feed_piece node.type root node)

feed_rounds_in_table :
    (rounds : ℕ) (s : State) (t : Bytes) → IsFreeOfB t → feed_rounds rounds s t ≢ beyond_table
unfolding feed_rounds InTable
feed_rounds_in_table rounds s [] h = λ e. ground (arith, e)
feed_rounds_in_table zero s (c ∷ t) h = λ e. ground (arith, e)
feed_rounds_in_table (suc rounds) s (c ∷ t) h =
    after_next-InTable (feed_rounds rounds) (λ s t. feed_rounds_in_table rounds s t) s.root
      (xml_next s.comment (c ∷ t)) (xml_next-IsSome s.comment (c ∷ t) h)
      (xml_next-Leaves IsFreeOfB tt free_tail s.comment c t h.2)

FedDocument-fed :
    (r : Fed)
    → FedDocument r
    → r ≢ beyond_table
    → (ok : Bool) × (e : Element) × (r ≡ fed ok e) × IsDocument e
FedDocument-fed (fed ok e) d n = (ok, e, refl, d)
FedDocument-fed beyond_table d n = absurd (n refl)
FedDocument-fed null_pointer d n = absurd d
FedDocument-fed out_of_rounds d n = absurd d

xml_feed_in_table : (e : Element) (t : Bytes) → IsFreeOfB t → xml_feed e t ≢ beyond_table
unfolding xml_feed
xml_feed_in_table (element h attributes children) t f =
    feed_rounds_in_table (length t) (start h attributes children) t f

-- A buffer without a `b`, small or capital, is fed to the end or up to an element that would be too
-- deep: no read behind a table and no null pointer, and the document is well-formed.
pub xml_feed-IsFreeOfB :
    (e : Element) (t : Bytes)
    → IsDocument e
    → IsFreeOfB t
    → (ok : Bool) × (e' : Element) × (xml_feed e t ≡ fed ok e') × IsDocument e'
xml_feed-IsFreeOfB e t d f =
    FedDocument-fed (xml_feed e t) (xml_feed-IsDocument e t d) (xml_feed_in_table e t f)
