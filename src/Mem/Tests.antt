-- ===== src/Mem/Tests.antt =====
-- A buffer with a short message, and one whose announced length wraps around.
use sipecho.Common.{
  ℕ, ◌-◌, ◌^◌, ltb, ◌&&◌, if◌then◌else◌, none, some, [], ◌∷◌, ◌++◌, ◌≡◌, refl, arith,
}
use sipecho.Xml.Text.{Bytes}
use sipecho.Mem.{Mem, mem_align, complete, incomplete, header_end, announced, sip_frame}
use sipecho.Mem.Bounds.{IsMem, AnnouncesShort, FramedRight, sip_frame-FramedRight}

-- `atoi` of one digit.
abbrev digits : Bytes → ℕ
digits [] = 0
digits (c ∷ t) = if ltb 47 c && ltb c 58 then c - 48 else 0

abbrev content_name : Bytes
content_name =
    b'c' ∷ b'o' ∷ b'n' ∷ b't' ∷ b'e' ∷ b'n' ∷ b't' ∷ b'-' ∷ b'l' ∷ b'e' ∷ b'n' ∷ b'g' ∷ b't' ∷ b'h'
    ∷ []

abbrev short_content_name : Bytes
short_content_name = b'l' ∷ []

-- A line that begins with a longer name, and one with the content length.
abbrev header : Bytes
header =
    b'A' ∷ 13 ∷ 10 ∷ b'c' ∷ b'o' ∷ b'n' ∷ b't' ∷ b'e' ∷ b'n' ∷ b't' ∷ b'-' ∷ b'l' ∷ b'e' ∷ b'n'
    ∷ b'g' ∷ b't' ∷ b'h' ∷ b'y' ∷ 13 ∷ 10 ∷ b'C' ∷ b'o' ∷ b'n' ∷ b't' ∷ b'e' ∷ b'n' ∷ b't' ∷ b'-'
    ∷ b'L' ∷ b'e' ∷ b'n' ∷ b'g' ∷ b't' ∷ b'h' ∷ 32 ∷ b':' ∷ 32 ∷ b'1' ∷ []

-- One byte that was taken, the header, an empty line, and a body of one byte.
abbrev arrived : Mem
arrived = record {
  buffer = 0 ∷ header ++ (13 ∷ 10 ∷ 13 ∷ 10 ∷ b'B' ∷ 0 ∷ []);
  length = 45;
  begin = 1;
  done = 1;
  end = 44;
}

announces_1 : announced digits content_name short_content_name arrived 38 ≡ 1
unfolding announced
announces_1 = refl

framed :
    sip_frame digits content_name short_content_name arrived
    ≡ complete (record arrived { done = 44 })
unfolding sip_frame
framed = refl

-- With the body still to come.
waits :
    sip_frame digits content_name short_content_name (record arrived { end = 43 })
    ≡ incomplete (record arrived { end = 43; done = 44 })
unfolding sip_frame
waits = refl

-- A negative length, which ends the message before its beginning.
huge : Bytes → ℕ
huge t = 2 ^ 32 - 43

wraps :
    sip_frame huge content_name short_content_name arrived ≡ complete (record arrived { done = 0 })
unfolding sip_frame huge
wraps = refl

arrived_announces :
    AnnouncesShort digits content_name short_content_name arrived (header_end arrived)
unfolding announced header_end
arrived_announces = omega arith

-- More bytes are pending than the one before them, so that the copy overlaps.
overlaps : mem_align arrived ≡ none
unfolding mem_align
overlaps = refl

-- Two bytes are pending behind three.
abbrev taken : Mem
taken = record { buffer = 1 ∷ 2 ∷ 3 ∷ 4 ∷ 5 ∷ 0 ∷ []; length = 6; begin = 3; done = 3; end = 5 }

aligned :
    mem_align taken
    ≡ some
        (record { buffer = 4 ∷ 5 ∷ 3 ∷ 4 ∷ 5 ∷ 0 ∷ []; length = 6; begin = 0; done = 0; end = 2 })
unfolding mem_align
aligned = refl

arrived-IsMem : IsMem arrived
arrived-IsMem = (refl, omega arith, omega arith, omega arith, omega arith, omega arith)

sip_frame-FramedRight_example :
    FramedRight arrived (sip_frame digits content_name short_content_name arrived)
sip_frame-FramedRight_example =
    sip_frame-FramedRight digits content_name short_content_name arrived arrived-IsMem
      arrived_announces
