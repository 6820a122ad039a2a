-- ===== src/Transport/Tests.antt =====
-- A service with two methods on a library that packs every packet into a byte or two.
use sipecho.Common.{
  ℕ, ◌<◌, ◌^◌, ◌+◌, ◌%◌, ◌≤◌, true, false, ◌==◌, if◌then◌else◌, some, List, [], ◌∷◌, ◌≡◌, ◌↔◌, refl,
  arith,
}
use sipecho.Xml.Text.{Bytes}
use sipecho.Transport.{
  pos, packed, Response, connack, suback, publish, quiet, unpacked, Descriptor, Transport,
  transport_new, relayed, called, Library, topic_of, begin,
}
use sipecho.Transport.Command.{get_method, Call, begin_call, command_call, calls, command}
use sipecho.Transport.Ready.{IsReadyRight, created, transport_new-IsReadyRight, calls_ready}
use sipecho.Transport.Granted.{AllGrants, commands, calls-AllGrants}
use sipecho.Transport.Topics.{IsSlashFree, get_method-topic_of}

abbrev digit : ℕ → Bytes
digit n = (b'0' + n % 10) ∷ []

-- A packet that begins with 1 accepts the connection, one with 2 grants a subscription for each
-- method, and any other is a call of the first method.
abbrev read : Bytes → Response
read [] = quiet
read (k ∷ t) =
    if k == 1
    then connack 0
    else if k == 2
    then suback (0 ∷ 1 ∷ [])
    else publish (b's' ∷ b'/' ∷ b'p' ∷ b'/' ∷ b'h' ∷ b'/' ∷ b'5' ∷ []) (k ∷ t)

abbrev small : Library
small = record {
  decimal = digit;
  pack_connection = λ size id t. packed (1 ∷ []);
  pack_publish = λ size topic id message. packed (3 ∷ message);
  pack_subscribe = λ size id topic. packed (8 ∷ id ∷ []);
  pack_ping = λ size. packed (12 ∷ []);
  pack_disconnect = λ size. packed (14 ∷ []);
  unpack_response = λ t. unpacked 4 (read t);
  unpack_message = λ i t. some t;
  relay = λ log buf. pos 0;
  error = λ log e. pos 1;
}

-- `s`, with the methods `p` and `q`
abbrev service : Descriptor
service = record { name = b's' ∷ []; methods = (b'p' ∷ []) ∷ (b'q' ∷ []) ∷ [] }

abbrev fresh : Transport
fresh = transport_new service (b't' ∷ []) [] [] (b'h' ∷ []) 0 60

abbrev session : List Call
session = begin_call 5 ∷ command_call (1 ∷ []) ∷ command_call (2 ∷ []) ∷ command_call (9 ∷ []) ∷ []

-- The subscriptions go out from the last method to the first.
session_log :
    (calls small session (created fresh)).log
    ≡ relayed (1 ∷ []) ∷ relayed (8 ∷ 2 ∷ []) ∷ relayed (8 ∷ 1 ∷ []) ∷ called 0 (9 ∷ []) ∷ []
unfolding begin command topic_of get_method
session_log = refl

session_ready : (calls small session (created fresh)).transport.ready ≡ true
unfolding begin command topic_of get_method
session_ready = refl

one_is_not_enough :
    (calls small (begin_call 5 ∷ command_call (1 ∷ []) ∷ []) (created fresh)).transport.ready
    ≡ false
unfolding begin command topic_of get_method
one_is_not_enough = refl

calls_ready_example :
    (((calls small session (created fresh)).transport.ready ≡ true)
      ↔ (2 ≤ (calls small session (created fresh)).transport.subscribes))
    × ((calls small session (created fresh)).transport.subscribes < 2 ^ 31)
calls_ready_example =
    calls_ready small service (b't' ∷ []) [] [] (b'h' ∷ []) 0 60 session (omega arith) (omega arith)

fresh-IsReadyRight : IsReadyRight service fresh
fresh-IsReadyRight =
    transport_new-IsReadyRight service (b't' ∷ []) [] [] (b'h' ∷ []) 0 60 (omega arith)

grant-AllGrants : AllGrants small ((2 ∷ []) ∷ [])
grant-AllGrants = ((omega arith, omega arith, (omega arith, (omega arith, tt))), tt)

calls-AllGrants_example :
    (calls small (commands ((2 ∷ []) ∷ [])) (created fresh)).transport.ready ≡ true
calls-AllGrants_example =
    calls-AllGrants small service (created fresh) ((2 ∷ []) ∷ []) (omega arith) fresh-IsReadyRight
      grant-AllGrants (omega arith)

no_slash : (c : ℕ) → (c == b'/') ≡ false → IsSlashFree (c ∷ [])
no_slash c h = ((λ e. ground (arith, h, e)), tt)

get_method-topic_of_example :
    get_method service (topic_of small (b's' ∷ []) (b'q' ∷ []) (b'h' ∷ []) 5) ≡ 2
get_method-topic_of_example =
    get_method-topic_of small service 1 (b'q' ∷ []) (b'h' ∷ []) 5 ((refl, tt), (tt, tt)) refl
      (no_slash b's' refl) (no_slash b'q' refl) (no_slash b'h' refl)
