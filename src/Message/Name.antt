-- ===== src/Message/Name.antt =====
-- lib/proto/message_xml.c: `normal_field_name`, the name in XML of a field: each run of three
-- underscores is a colon, two that are left a dash, one an underscore; those at the end are dropped.
use sipecho.Common.{
  ℕ, zero, suc, ◌+◌, ◌≤◌, true, false, ◌==◌, if◌then◌else◌, Option, none, some, [], ◌∷◌, ◌++◌, ◌≡◌,
  refl, sym, ◌∙◌, ap, inl, inr, Bool-cases, length, length-append, arith,
}
use sipecho.Xml.Text.{Bytes}

abbrev pub underscores : ℕ → Bytes → Bytes
underscores zero t = t
underscores (suc n) t = b'_' ∷ underscores n t

-- The loop `do ... while (*in)` behind its first test, with `i` underscores counted. Four and more
-- are read again from the fourth on.
unfoldable pub normal : ℕ → ℕ → Bytes → Bytes
normal zero i t = []
normal (suc rounds) i [] = []
normal (suc rounds) i (c ∷ t) = elim (c == b'_') [
  | true ↦ normal rounds (suc i) t
  | false ↦ elim i [
    | zero ↦ c ∷ normal rounds 0 t
    | suc zero ↦ b'_' ∷ c ∷ normal rounds 0 t
    | suc (suc zero) ↦ b'-' ∷ c ∷ normal rounds 0 t
    | suc (suc (suc zero)) ↦ b':' ∷ c ∷ normal rounds 0 t
    | suc (suc (suc (suc n))) ↦ b':' ∷ normal rounds 0 (underscores (suc n) (c ∷ t))
  ]
]

-- The rounds that a run of `i` underscores takes again.
abbrev again : ℕ → ℕ
again zero = 0
again (suc zero) = 0
again (suc (suc zero)) = 0
again (suc (suc (suc zero))) = 0
again (suc (suc (suc (suc n)))) = suc (suc n) + again (suc n)

-- The rounds that the loop takes.
abbrev pub cost : ℕ → Bytes → ℕ
cost i [] = 1
cost i (c ∷ t) =
    let more = cost (suc i) t in
    let fresh = again i + cost 0 t in if c == b'_' then suc more else suc fresh

-- `normal_field_name`; of an empty name it reads behind the end.
unfoldable pub normal_field_name : Bytes → Option Bytes
unfolding normal
normal_field_name [] = none
normal_field_name (c ∷ t) = some (normal (cost 0 (c ∷ t)) 0 (c ∷ t))

-- What a run of underscores is in XML.
abbrev pub marks : ℕ → Bytes
marks zero = []
marks (suc zero) = b'_' ∷ []
marks (suc (suc zero)) = b'-' ∷ []
marks (suc (suc (suc n))) = b':' ∷ marks n

-- The name without the loop's second readings.
abbrev pub xml_name : ℕ → Bytes → Bytes
xml_name i [] = []
xml_name i (c ∷ t) =
    let more = xml_name (suc i) t in
    let fresh = marks i ++ (c ∷ xml_name 0 t) in if c == b'_' then more else fresh

xml_name-underscores : (k i : ℕ) (t : Bytes) → xml_name i (underscores k t) ≡ xml_name (i + k) t
xml_name-underscores zero i t = ap (λ (n : ℕ). xml_name n t) (omega arith)
xml_name-underscores (suc k) i t =
    xml_name-underscores k (suc i) t
    ∙ ap (λ (n : ℕ). xml_name n t) (let e : suc i + k ≡ i + suc k = omega arith in e)

cost-underscores : (k i : ℕ) (t : Bytes) → cost i (underscores k t) ≡ k + cost (i + k) t
cost-underscores zero i t =
    ap (λ (n : ℕ). cost n t) (let e : i ≡ i + 0 = omega arith in e)
    ∙ (let e : cost (i + 0) t ≡ 0 + cost (i + 0) t = omega arith in e)
cost-underscores (suc k) i t =
    let e : suc i + k ≡ i + suc k = omega arith in
    let moved : cost (suc i + k) t ≡ cost (i + suc k) t = ap (λ (n : ℕ). cost n t) e in
    omega (arith, cost-underscores k (suc i) t, moved)

module _ (rounds c : ℕ) (t : Bytes) (e : (c == b'_') ≡ false)
    (ih : (j : ℕ) (t' : Bytes) → cost j t' ≤ rounds → normal rounds j t' ≡ xml_name j t') where
  cost-run : (i : ℕ) → cost i (c ∷ t) ≡ suc (again i + cost 0 t)
  cost-run i = rw e refl

  xml_name-run : (i : ℕ) → xml_name i (c ∷ t) ≡ marks i ++ (c ∷ xml_name 0 t)
  xml_name-run i = rw e refl

  -- The byte behind a run of underscores.
  normal-run :
      (i : ℕ)
      → again i + cost 0 t ≤ rounds
      → normal (suc rounds) i (c ∷ t) ≡ marks i ++ (c ∷ xml_name 0 t)
  unfolding normal
  normal-run zero h = rw (e, normal) (ap (◌∷◌ c) (ih 0 t (omega arith)))
  normal-run (suc zero) h = rw (e, normal) (ap (λ (l : Bytes). b'_' ∷ c ∷ l) (ih 0 t (omega arith)))
  normal-run (suc (suc zero)) h =
      rw (e, normal) (ap (λ (l : Bytes). b'-' ∷ c ∷ l) (ih 0 t (omega arith)))
  normal-run (suc (suc (suc zero))) h =
      rw (e, normal) (ap (λ (l : Bytes). b':' ∷ c ∷ l) (ih 0 t (omega arith)))
  normal-run (suc (suc (suc (suc n)))) h =
      let at_n : cost (0 + suc n) (c ∷ t) ≡ suc (again (suc n) + cost 0 t) =
        ap (λ (m : ℕ). cost m (c ∷ t)) (omega arith) ∙ cost-run (suc n) in
      let reread : normal rounds 0 (underscores (suc n) (c ∷ t))
          ≡ marks (suc n) ++ (c ∷ xml_name 0 t) =
        ih 0 (underscores (suc n) (c ∷ t)) (omega (arith, cost-underscores (suc n) 0 (c ∷ t), at_n))
        ∙ (xml_name-underscores (suc n) 0 (c ∷ t)
            ∙ (ap (λ (m : ℕ). xml_name m (c ∷ t)) (omega arith) ∙ xml_name-run (suc n))) in
      rw (e, normal) (ap (◌∷◌ b':') reread)

-- With as many rounds as `cost` counts, or more, the loop runs to its end.
normal-xml_name : (rounds i : ℕ) (t : Bytes) → cost i t ≤ rounds → normal rounds i t ≡ xml_name i t
unfolding normal
normal-xml_name zero i [] h = refl
normal-xml_name zero i (c ∷ t) h = absurd (ground (arith, h))
normal-xml_name (suc rounds) i [] h = refl
normal-xml_name (suc rounds) i (c ∷ t) h = elim (Bool-cases (c == b'_')) [
  | inl e ↦ rw (e, normal) (normal-xml_name rounds (suc i) t (ground (arith, e, h)))
  | inr e ↦
      normal-run rounds c t e (normal-xml_name rounds) i (ground (arith, e, h))
      ∙ sym (xml_name-run rounds c t e (normal-xml_name rounds) i)
]

length-marks : (i : ℕ) → length (marks i) ≤ i
length-marks zero = omega arith
length-marks (suc zero) = omega arith
length-marks (suc (suc zero)) = omega arith
length-marks (suc (suc (suc n))) = omega (arith, length-marks n)

length-xml_name : (i : ℕ) (t : Bytes) → length (xml_name i t) ≤ i + length t
length-xml_name i [] = omega arith
length-xml_name i (c ∷ t) = elim (Bool-cases (c == b'_')) [
  | inl e ↦ rw e (omega (arith, length-xml_name (suc i) t))
  | inr e ↦ rw e (
      omega
        (arith, length-marks i, length-xml_name 0 t, length-append (marks i) (c ∷ xml_name 0 t)))
]

-- On a name that is not empty the loop ends, in any number of rounds from `cost` on; it writes the
-- name in XML, and no more bytes than it reads, so the buffer of its callers is large enough.
pub normal_field_name-xml_name :
    (c : ℕ) (t : Bytes) (rounds : ℕ)
    → cost 0 (c ∷ t) ≤ rounds
    → (normal rounds 0 (c ∷ t) ≡ xml_name 0 (c ∷ t))
      × (normal_field_name (c ∷ t) ≡ some (xml_name 0 (c ∷ t)))
      × (length (xml_name 0 (c ∷ t)) ≤ length (c ∷ t))
unfolding normal_field_name
normal_field_name-xml_name c t rounds h = (
  normal-xml_name rounds 0 (c ∷ t) h,
  ap some (normal-xml_name (cost 0 (c ∷ t)) 0 (c ∷ t) (omega arith)),
  omega (arith, length-xml_name 0 (c ∷ t)),
)
