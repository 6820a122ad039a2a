-- ===== src/Xml/Tag.antt =====
-- lib/common/xml.c: the table of tags, without `_XML_HTML_TAG`, which no build file defines.
use sipecho.Common.{
  ℕ, zero, suc, ◌+◌, ◌-◌, true, false, ltb, leb, ◌==◌, if◌then◌else◌, Option, none, some, List, [],
  ◌∷◌, get_elem?, ◌≡◌, ◌↔◌, ◌⊎◌, inl, inr, refl, sym, subst, ==_iff, arith,
}
use sipecho.Xml.Text.{Bytes, tolower, xml_text_cmp}
use sipecho.Xml.Element.{Tag, brace_none, brace_any, block_follow, block_comment}

abbrev pub declaration_tag : Tag
declaration_tag = record {
  name = b'?' ∷ b'x' ∷ b'm' ∷ b'l' ∷ [];
  brace = brace_none;
  block = block_follow;
}

abbrev pub comment_tag : Tag
comment_tag = record { name = b'!' ∷ b'-' ∷ b'-' ∷ []; brace = brace_none; block = block_comment }

-- `__xml_tag`
abbrev pub xml_tag : List Tag
xml_tag = declaration_tag ∷ comment_tag ∷ []

-- `__xml_map`
abbrev pub xml_map : List ℕ
xml_map = 0 ∷ 2 ∷ 2 ∷ []

-- `__xml_unknown_tag`
abbrev pub xml_unknown_tag : Tag
xml_unknown_tag = record { name = b'_' ∷ b'_' ∷ []; brace = brace_any; block = block_follow }

-- `1 + tolower(c) - 'a'`, brought into range. A byte from 128 on is a negative `char`.
abbrev pub slot : ℕ → ℕ
slot c = let m = if ltb c 128 then tolower c + 1 - b'a' else 0 in if leb 3 m then 1 else m

-- `for (; i < end; i++)`, in so many rounds.
unfoldable pub find_tag : Bytes → ℕ → ℕ → Option Tag
find_tag name i zero = some xml_unknown_tag
find_tag name i (suc rounds) = elim (get_elem? xml_tag i) [
  | none ↦ none
  | some tag ↦ elim (xml_text_cmp name tag.name) [
    | false ↦ some tag
    | true ↦ find_tag name (i + 1) rounds
  ]
]

abbrev pub find_tag_between : Bytes → Option ℕ → Option ℕ → Option Tag
find_tag_between name (some i) (some end) = find_tag name i (end - i)
find_tag_between name _ _ = none

-- `xml_tag_find`; `none` where it reads behind a table.
unfoldable pub xml_tag_find : Bytes → Option Tag
unfolding find_tag tolower
xml_tag_find [] = some xml_unknown_tag
xml_tag_find (c ∷ t) =
    find_tag_between (c ∷ t) (get_elem? xml_map (slot c)) (get_elem? xml_map (slot c + 1))

-- The name begins with `b` or `B`.
abbrev pub BeginsWithB : Bytes → Type 0
BeginsWithB [] = ⊥
BeginsWithB (c ∷ t) = (c ≡ b'b') ⊎ (c ≡ b'B')

find_tag_all : (name : Bytes) → find_tag name 0 2 ≡ none → ⊥
unfolding find_tag
find_tag_all name e = ground (arith, e)

slot-eq : (c : ℕ) → (slot c == 2) ≡ true → (c ≡ b'b') ⊎ (c ≡ b'B')
unfolding tolower
slot-eq c h = ground arith

slot_cases : (c : ℕ) → (slot c ≡ 0) ⊎ ((slot c ≡ 1) ⊎ (slot c ≡ 2))
unfolding tolower
slot_cases c = ground arith

eq-slot : (c : ℕ) → (c ≡ b'b') ⊎ (c ≡ b'B') → slot c ≡ 2
unfolding tolower
eq-slot c h = ground arith

abbrev tag_at : Bytes → ℕ → Option Tag
tag_at name m = find_tag_between name (get_elem? xml_map m) (get_elem? xml_map (m + 1))

tag_at_slot : (name : Bytes) (m : ℕ) → (m ≡ 0) ⊎ ((m ≡ 1) ⊎ (m ≡ 2)) → tag_at name m ≡ none → m ≡ 2
unfolding find_tag
tag_at_slot name m (inl h) e = absurd (find_tag_all name (subst (λ k. tag_at name k ≡ none) h e))
tag_at_slot name m (inr (inl h)) e = absurd (ground (arith, subst (λ k. tag_at name k ≡ none) h e))
tag_at_slot name m (inr (inr h)) e = h

-- The search for a tag reads behind its table exactly for the names that begin with a `b`.
pub xml_tag_find-BeginsWithB : (name : Bytes) → (xml_tag_find name ≡ none) ↔ BeginsWithB name
unfolding xml_tag_find
xml_tag_find-BeginsWithB [] = (λ e. ground (arith, e), λ h. absurd h)
xml_tag_find-BeginsWithB (c ∷ t) = (
  λ e. slot-eq c ((==_iff (slot c) 2).1 (tag_at_slot (c ∷ t) (slot c) (slot_cases c) e)),
  λ h. subst (λ k. tag_at (c ∷ t) k ≡ none) (sym (eq-slot c h)) refl,
)
