-- ===== src/Xml/Feed/Numbering.antt =====
-- The `level` and the `id` of the elements of a document.
use sipecho.Common.{ℕ, suc, ◌+◌, ◌≤◌, none, [], ◌≡◌, refl, subst, arith}
use sipecho.Xml.Element.{Element, element, Elements, nil, cons, append}
use sipecho.Xml.Feed.{last_id, next_id}

-- Elements of one level, numbered from `id`; those below them are one level deeper, numbered from 0.
-- No level is above 513.
abbrev pub Numbered : ℕ → ℕ → Elements → Type 0
Numbered level id nil = Unit
Numbered level id (cons (element h attributes children) xs) =
    (h.level ≡ level)
    × (h.level ≤ 513)
    × (h.id ≡ id)
    × Numbered (level + 1) 0 children
    × Numbered level (id + 1) xs

-- The document has neither name nor tag and stands at level 0.
abbrev pub IsDocument : Element → Type 0
IsDocument (element h attributes children) =
    (h.name ≡ []) × (h.tag ≡ none) × (h.level ≡ 0) × Numbered 1 0 children

abbrev pub count : Elements → ℕ
count nil = 0
count (cons e xs) = suc (count xs)

pub append-Numbered :
    (level id : ℕ) (xs ys : Elements)
    → Numbered level id xs
    → Numbered level (id + count xs) ys
    → Numbered level id (append xs ys)
append-Numbered level id nil ys h k = subst (λ i. Numbered level i ys) (omega arith) k
append-Numbered level id (cons (element h attributes children) xs) ys n k = (
  n.0,
  n.1,
  n.2,
  n.3,
  append-Numbered level (id + 1) xs ys n.4 (subst (λ i. Numbered level i ys) (omega arith) k),
)

next_id-last_id :
    (level id : ℕ) (e : Element) (xs : Elements)
    → Numbered level id (cons e xs)
    → next_id (last_id (cons e xs)) 0 ≡ id + count (cons e xs)
next_id-last_id level id (element h attributes children) nil n = omega (arith, n.2)
next_id-last_id level id (element h attributes children) (cons (element h' a' c') xs) n =
    omega (arith, next_id-last_id level (id + 1) (element h' a' c') xs n.4)

-- The next child's number is the number of children.
pub next_id-count :
    (level : ℕ) (xs : Elements) → Numbered level 0 xs → next_id (last_id xs) 0 ≡ count xs
next_id-count level nil n = refl
next_id-count level (cons e xs) n = omega (arith, next_id-last_id level 0 e xs n)
