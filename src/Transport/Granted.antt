-- ===== src/Transport/Granted.antt =====
-- Acknowledged subscriptions are counted, and enough of them make a transport ready.
use sipecho.Common.{
  ℕ, ◌+◌, ◌≤◌, true, false, ltb, leb, ◌==◌, ◌||◌, Option, none, some, List, [], ◌∷◌, length, ◌≡◌,
  refl, arith, ◌∙◌,
}
use sipecho.Xml.Text.{Bytes}
use sipecho.Transport.{
  ℤ, pos, suback, connack, publish, quiet, unknown, Unpacked, unpacked, not_unpacked, Descriptor,
  World, Library, unless_returned,
}
use sipecho.Transport.Command.{
  ack_one, ack_all, respond, or_length, commanded, command, Call, command_call, call, calls,
}
use sipecho.Transport.Ready.{IsReadyRight, calls-Right}

abbrev pub AllGranted : List ℕ → Type 0
AllGranted [] = Unit
AllGranted (code ∷ codes) = (code ≤ 2) × AllGranted codes

-- A response of positive length that grants every subscription it is about.
abbrev pub IsGrant : Unpacked → Type 0
IsGrant (unpacked len (suback codes)) = (1 ≤ len) × (len ≤ 32767) × AllGranted codes
IsGrant u = ⊥

abbrev pub AllGrants : Library → List Bytes → Type 0
AllGrants lib [] = Unit
AllGrants lib (buf ∷ bufs) = IsGrant (lib.unpack_response buf) × AllGrants lib bufs

abbrev pub grants : Unpacked → ℕ
grants (unpacked len (suback codes)) = length codes
grants u = 0

abbrev pub all_grants : Library → List Bytes → ℕ
all_grants lib [] = 0
all_grants lib (buf ∷ bufs) = grants (lib.unpack_response buf) + all_grants lib bufs

abbrev pub commands : List Bytes → List Call
commands [] = []
commands (buf ∷ bufs) = command_call buf ∷ commands bufs

-- What the counted responses leave.
abbrev Counted : ℕ → World → Option ℤ × World → Type 0
Counted k w r = (r.0 ≡ none) × (r.1.transport.subscribes ≡ w.transport.subscribes + k)

le_leb : (a b : ℕ) → a ≤ b → leb a b ≡ true
le_leb a b h = ground arith

ack_one-Counted :
    (lib : Library) (code k : ℕ) (w : World) (r : Option ℤ × World)
    → code ≤ 2
    → Counted k w r
    → Counted (k + 1) w (unless_returned lib r (ack_one lib code))
ack_one-Counted lib code k w (none, w') h c = rw (le_leb code 2 h) (refl, omega (arith, c.1))
ack_one-Counted lib code k w (some a, w') h c = absurd (ground (arith, c.0))

ack_all-Counted :
    (lib : Library) (codes : List ℕ) (w : World)
    → AllGranted codes
    → Counted (length codes) w (ack_all lib codes w)
unfolding ack_all
ack_all-Counted lib [] w h = (refl, omega arith)
ack_all-Counted lib (code ∷ codes) w h = ground (
  arith,
  ack_one-Counted lib code (length codes) w (ack_all lib codes w) h.0
      (ack_all-Counted lib codes w h.1),
)

len_ok : (len : ℕ) → 1 ≤ len → len ≤ 32767 → (len == 0 || ltb 32767 len) ≡ false
len_ok len a b = ground arith

or_length-Counted :
    (lib : Library) (len k : ℕ) (w : World) (r : Option ℤ × World)
    → Counted k w r
    → ((or_length lib len r).0 ≡ pos len)
      × ((or_length lib len r).1.transport.subscribes ≡ w.transport.subscribes + k)
or_length-Counted lib len k w (none, w') c = (refl, c.1)
or_length-Counted lib len k w (some a, w') c = absurd (ground (arith, c.0))

commanded-grants :
    (lib : Library) (w : World) (u : Unpacked)
    → IsGrant u
    → (commanded lib w u).1.transport.subscribes ≡ w.transport.subscribes + grants u
unfolding respond
commanded-grants lib w (not_unpacked e) h = absurd h
commanded-grants lib w (unpacked len (connack code)) h = absurd h
commanded-grants lib w (unpacked len (publish topic message)) h = absurd h
commanded-grants lib w (unpacked len quiet) h = absurd h
commanded-grants lib w (unpacked len unknown) h = absurd h
commanded-grants lib w (unpacked len (suback codes)) h = rw (len_ok len h.0 h.1) (
    (or_length-Counted lib len (length codes) w (ack_all lib codes w)
      (ack_all-Counted lib codes w h.2)).1)

calls-all_grants :
    (lib : Library) (bufs : List Bytes) (w : World)
    → AllGrants lib bufs
    → (calls lib (commands bufs) w).transport.subscribes
      ≡ w.transport.subscribes + all_grants lib bufs
unfolding command
calls-all_grants lib [] w h = omega arith
calls-all_grants lib (buf ∷ bufs) w h = omega (
  arith,
  calls-all_grants lib bufs (call lib (command_call buf) w) h.1,
  commanded-grants lib w (lib.unpack_response buf) h.0,
)

-- A transport whose readiness is right becomes ready by any sequence of responses that grant, with
-- those granted before, as many subscriptions as its service has methods, and has one at least.
pub calls-AllGrants :
    (lib : Library) (d : Descriptor) (w : World) (bufs : List Bytes)
    → 1 ≤ length d.methods
    → IsReadyRight d w.transport
    → AllGrants lib bufs
    → length d.methods ≤ w.transport.subscribes + all_grants lib bufs
    → (calls lib (commands bufs) w).transport.ready ≡ true
calls-AllGrants lib d w bufs some_method right grants enough =
    let after =
      calls-Right lib d some_method (commands bufs) w w.transport.subscribes (right, omega arith) in
    after.0.1
    ∙ le_leb (length d.methods) _ (omega (arith, enough, calls-all_grants lib bufs w grants))
