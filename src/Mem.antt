-- ===== src/Mem.antt =====
-- src/mem.c and mem.h: buffers, and the framing of messages in them by `sip_read` of src/sip.c with
-- `strncasestr` of lib/common/strncasestr.c.
-- Indices are unsigned shorts. Allocations succeed.
pub mod Bounds
mod Tests
use sipecho.Common.{
  ℕ, zero, suc, ◌+◌, ◌-◌, ◌%◌, ◌^◌, Bool, true, false, ltb, ◌==◌, ◌||◌, if◌then◌else◌, Option, none,
  some, List, [], ◌∷◌, ◌++◌, length,
}
use sipecho.Xml.Text.{Bytes, tolower}
use sipecho.Net.{lower}
use sipecho.Xml.Next.{is_prefix}

abbrev pub take : ℕ → Bytes → Bytes
take zero t = []
take (suc n) [] = []
take (suc n) (c ∷ t) = c ∷ take n t

abbrev pub drop : ℕ → Bytes → Bytes
drop zero t = t
drop (suc n) [] = []
drop (suc n) (c ∷ t) = drop n t

-- `mem_t` without the address of the peer.
pub record Mem : Type 0 where
  pub buffer : Bytes
  pub length : ℕ
  pub begin : ℕ
  pub done : ℕ
  pub end : ℕ

-- `mem_new`; `garbage` is what a new buffer holds.
unfoldable pub mem_new : Bytes → Option Bytes → ℕ → Option Mem
mem_new garbage buffer zero = none
mem_new garbage none (suc n) =
    some (record { buffer = garbage; length = suc n; begin = 0; done = 0; end = 0 })
mem_new garbage (some buffer) (suc n) =
    some (record { buffer = buffer; length = suc n; begin = 0; done = 0; end = suc n })

-- `memcpy` of `n` bytes from index `from` of a buffer to its front; `none` where the two ranges
-- overlap, which C leaves undefined.
abbrev pub memcpy_front : ℕ → ℕ → Bytes → Option Bytes
memcpy_front from n t = if ltb from n then none else some (take n (drop from t) ++ drop n t)

-- The indices of a buffer whose pending bytes have moved to its front.
abbrev pub moved_to_front : Mem → Option Bytes → Option Mem
moved_to_front m none = none
moved_to_front m (some buffer) = some (record m {
  buffer = buffer;
  end = (m.end + 2 ^ 16 - m.begin) % 2 ^ 16;
  done = (m.done + 2 ^ 16 - m.begin) % 2 ^ 16;
  begin = 0;
})

-- `mem_align` where `end` is not before `begin`; `none` where its behaviour is undefined.
unfoldable pub mem_align : Mem → Option Mem
mem_align m =
    if m.begin == 0
    then some m
    else moved_to_front m (memcpy_front m.begin (m.end - m.begin) m.buffer)

-- `mem_reset`
unfoldable pub mem_reset : Mem → Mem
mem_reset m = record m { begin = 0; done = 0; end = 0 }

-- `mem_empty`
unfoldable pub mem_empty : Mem → Bool
mem_empty m = m.end == m.begin

abbrev pub one_later : Option ℕ → Option ℕ
one_later none = none
one_later (some i) = some (suc i)

-- `memmem`, as an index.
unfoldable pub memmem : Bytes → Bytes → Option ℕ
memmem p [] = if is_prefix p [] then some 0 else none
memmem p (c ∷ t) =
    let later = one_later (memmem p t) in if is_prefix p (c ∷ t) then some 0 else later

abbrev pub crlfcrlf : Bytes
crlfcrlf = 13 ∷ 10 ∷ 13 ∷ 10 ∷ []

abbrev pub lflf : Bytes
lflf = 10 ∷ 10 ∷ []

-- Where `sip_read` stops reading.
pub data Framed : Type 0 where
  incomplete complete : Mem → Framed

-- `strncasestr` of lib/common/strncasestr.c, as an index, for a text that begins with `first`, which
-- is compared as it is, and goes on with `find`.
unfoldable pub strncasestr : ℕ → Bytes → ℕ → Bytes → Option ℕ
unfolding tolower
strncasestr first find zero t = none
strncasestr first find (suc n) [] = none
strncasestr first find (suc n) (c ∷ t) =
    let later = one_later (strncasestr first find n t) in
    if c == 0
    then none
    else if c == first
    then if ltb n (length find)
      then none
      else if is_prefix (lower find) (lower t)
      then some 0
      else later
    else later

-- How many spaces and tabs a text begins with.
abbrev pub blanks : Bytes → ℕ
blanks [] = 0
blanks (c ∷ t) = let more = blanks t in if c == 32 || c == 9 then suc more else 0

abbrev pub is_colon : Bytes → Bool
is_colon [] = false
is_colon (c ∷ t) = c == b':'

-- Where the header of a message ends, so many bytes behind `done`, and how long its end is.
unfoldable pub header_end : Mem → Option (ℕ × ℕ)
unfolding memmem
header_end m =
    let rest = take (m.end - m.done) (drop m.done m.buffer) in
    elim (memmem crlfcrlf rest) [
      | some i ↦ some (i, 4)
      | none ↦ elim (memmem lflf rest) [ some i ↦ some (i, 2) | none ↦ none ]
    ]

-- `sip_read` up to `chunk->done > chunk->end`. `atoi` of the C library gives the bit pattern of an
-- int; the two names are osip's CONTENT_LENGTH and CONTENT_LENGTH_SHORT.
module _ (atoi : Bytes → ℕ) (name short_name : Bytes) where
  -- Behind the name of the header field, in the first `n` bytes.
  unfoldable pub behind_name : ℕ → Bytes → Option ℕ
  unfolding strncasestr
  behind_name n t = elim (strncasestr 10 name n t) [
    | some i ↦ some (i + 15)
    | none ↦ elim (strncasestr 10 short_name n t) [ some i ↦ some (i + 2) | none ↦ none ]
  ]

  abbrev pub number_behind : Bytes → ℕ
  number_behind [] = 0
  number_behind (c ∷ t) = atoi (drop (blanks t) t)

  -- The loop over the header, of which `n` bytes are left: the content length that it announces, or
  -- 0. Each round takes a byte at least, so `n` rounds are enough.
  unfoldable pub content_length : ℕ → ℕ → Bytes → ℕ
  unfolding behind_name
  content_length zero n t = 0
  content_length (suc rounds) n t = elim (behind_name n t) [
    | none ↦ 0
    | some i ↦
        let j = i + blanks (drop i t) in
        let again = content_length rounds (n - j) (drop j t) in
        if is_colon (drop j t) then number_behind (drop j t) else again
  ]

  -- What the header announces that ends so many bytes behind `done`.
  unfoldable pub announced : Mem → ℕ → ℕ
  unfolding content_length
  announced m i = let n = m.done + i - m.begin in content_length n n (drop m.begin m.buffer)

  abbrev pub judged : Mem → Framed
  judged m = if ltb m.end m.done then incomplete m else complete m

  abbrev pub past_header : Mem → Option (ℕ × ℕ) → Framed
  past_header m none = incomplete m
  past_header m (some (i, mark)) =
      judged (record m { done = ((m.done + i + mark) % 2 ^ 16 + announced m i) % 2 ^ 16 })

  unfoldable pub sip_frame : Mem → Framed
  unfolding announced header_end
  sip_frame m = if m.done == m.begin then past_header m (header_end m) else judged m
