-- ===== src/Mem/Bounds.antt =====
-- The indices of a buffer keep their order, and what is pending is not changed.
use sipecho.Common.{
  ℕ, zero, suc, ◌+◌, ◌-◌, ◌%◌, ◌^◌, ◌≤◌, ◌<◌, true, ltb, ◌==◌, Option, none, some, [], ◌∷◌, ◌≡◌,
  refl, arith, length, ◌⊎◌, Bool-cases, inl, inr, ==_iff,
}
use sipecho.Xml.Text.{Bytes}
use sipecho.Xml.Next.{is_prefix}
use sipecho.Mem.{
  take, drop, Mem, one_later, memmem, crlfcrlf, lflf, Framed, incomplete, complete, header_end,
  announced, judged, past_header, sip_frame,
}

-- The buffer has its length, `begin` stands before `done` and `end`, and `end` in the buffer.
abbrev pub IsMem : Mem → Type 0
IsMem m =
    (length m.buffer ≡ m.length)
    × (m.length < 2 ^ 16)
    × (m.begin ≤ m.done)
    × (m.begin ≤ m.end)
    × (m.end ≤ m.length)
    × (m.done < 2 ^ 16)

-- What has come and was not taken.
abbrev pub pending : Mem → Bytes
pending m = take (m.end - m.begin) (drop m.begin m.buffer)

length-take-le : (n : ℕ) (t : Bytes) → length (take n t) ≤ n
length-take-le zero t = omega arith
length-take-le (suc n) [] = omega arith
length-take-le (suc n) (c ∷ t) = omega (arith, length-take-le n t)

-- An index at which a pattern of this length fits.
abbrev FitsAt : ℕ → ℕ → Option ℕ → Type 0
FitsAt n l none = Unit
FitsAt n l (some i) = i + n ≤ l

is_prefix-length : (p t : Bytes) → is_prefix p t ≡ true → length p ≤ length t
is_prefix-length [] t h = omega arith
is_prefix-length (c ∷ p) [] h = absurd (ground (arith, h))
is_prefix-length (c ∷ p) (d ∷ t) h = ground (arith, is_prefix-length p t, h)

one_later-FitsAt : (n l : ℕ) (o : Option ℕ) → FitsAt n l o → FitsAt n (suc l) (one_later o)
one_later-FitsAt n l none h = tt
one_later-FitsAt n l (some i) h = omega (arith, h)

memmem-FitsAt : (p t : Bytes) → FitsAt (length p) (length t) (memmem p t)
unfolding memmem
memmem-FitsAt p [] = elim (Bool-cases (is_prefix p [])) [
  | inl b ↦ rw b (omega (arith, is_prefix-length p [] b))
  | inr b ↦ rw b tt
]
memmem-FitsAt p (c ∷ t) = elim (Bool-cases (is_prefix p (c ∷ t))) [
  | inl b ↦ rw b (omega (arith, is_prefix-length p (c ∷ t) b))
  | inr b ↦ rw b (one_later-FitsAt (length p) (length t) (memmem p t) (memmem-FitsAt p t))
]

-- What `mem_align` gives: no defined result exactly where more bytes are pending than stand before
-- them; else a well-formed buffer that begins at 0, with the same pending bytes, and `done` as far
-- from `begin` as before.
abbrev pub AlignedRight : Mem → Option Mem → Type 0
AlignedRight m none = (1 ≤ m.begin) × (m.begin < m.end - m.begin)
AlignedRight m (some n) =
    ((m.begin ≡ 0) ⊎ (m.end - m.begin ≤ m.begin))
    × IsMem n
    × (pending n ≡ pending m)
    × (n.begin ≡ 0)
    × (n.done ≡ m.done - m.begin)

-- What a framing keeps; a message that is complete ends before `end`.
abbrev pub FramedRight : Mem → Framed → Type 0
FramedRight m (incomplete n) = IsMem n × (pending n ≡ pending m)
FramedRight m (complete n) = IsMem n × (n.done ≤ n.end) × (pending n ≡ pending m)

-- The end of a header that lies in so many bytes.
abbrev EndsIn : ℕ → Option (ℕ × ℕ) → Type 0
EndsIn l none = Unit
EndsIn l (some (i, mark)) = i + mark ≤ l

header_end-EndsIn : (m : Mem) → EndsIn (m.end - m.done) (header_end m)
unfolding header_end
header_end-EndsIn m =
    by_search (memmem crlfcrlf rest) (memmem lflf rest) (memmem-FitsAt crlfcrlf rest)
      (memmem-FitsAt lflf rest)
  where
    rest : Bytes
    rest = take (m.end - m.done) (drop m.done m.buffer)

    by_search :
        (o p : Option ℕ)
        → FitsAt 4 (length rest) o
        → FitsAt 2 (length rest) p
        → EndsIn (m.end - m.done) (elim o as (λ (_ : Option ℕ). Option (ℕ × ℕ)) [
          | some i ↦ some (i, 4)
          | none ↦ elim p [ some i ↦ some (i, 2) | none ↦ none ]
        ])
    by_search (some i) p h k =
        omega (arith, h, length-take-le (m.end - m.done) (drop m.done m.buffer))
    by_search none (some i) h k =
        omega (arith, k, length-take-le (m.end - m.done) (drop m.done m.buffer))
    by_search none none h k = tt

module _ (atoi : Bytes → ℕ) (name short_name : Bytes) where
  -- What the header of a buffer announces, if it has come whole, fits an unsigned short above `end`.
  abbrev pub AnnouncesShort : Mem → Option (ℕ × ℕ) → Type 0
  AnnouncesShort m none = Unit
  AnnouncesShort m (some (i, mark)) = announced atoi name short_name m i + m.end < 2 ^ 16

  judged-FramedRight :
      (m : Mem) (done : ℕ)
      → IsMem m
      → m.begin ≤ done
      → done < 2 ^ 16
      → FramedRight m (judged atoi name short_name (record m { done = done }))
  judged-FramedRight m done h a b = elim (Bool-cases (ltb m.end done)) [
    | inl e ↦ rw e ((h.0, h.1, a, h.3, h.4, b), refl)
    | inr e ↦ rw e ((h.0, h.1, a, h.3, h.4, b), ground (arith, e), refl)
  ]

  past_header-FramedRight :
      (m : Mem) (o : Option (ℕ × ℕ))
      → IsMem m
      → m.done ≤ m.end
      → EndsIn (m.end - m.done) o
      → AnnouncesShort m o
      → FramedRight m (past_header atoi name short_name m o)
  past_header-FramedRight m none h d e short = (h, refl)
  past_header-FramedRight m (some (i, mark)) h d e short =
      judged-FramedRight m
        (((m.done + i + mark) % 2 ^ 16 + announced atoi name short_name m i) % 2 ^ 16) h
        (omega (arith, h, short, e, d)) (omega arith)

  -- Where `begin` to `end` hold a well-formed buffer, and the content length that its header
  -- announces, if the header has come whole, fits an unsigned short above `end`, framing keeps the
  -- order of the indices and the pending bytes, and a message that is complete lies between `begin`
  -- and `end`.
  pub sip_frame-FramedRight :
      (m : Mem)
      → IsMem m
      → AnnouncesShort m (header_end m)
      → FramedRight m (sip_frame atoi name short_name m)
  unfolding sip_frame
  sip_frame-FramedRight m right short = elim (Bool-cases (m.done == m.begin)) [
    | inl b ↦ rw b (
        past_header-FramedRight m (header_end m) right
          (omega (arith, right, (==_iff m.done m.begin).0 b)) (header_end-EndsIn m) short)
    | inr b ↦ rw b (judged-FramedRight m m.done right right.2 right.5)
  ]
