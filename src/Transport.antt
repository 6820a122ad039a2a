-- ===== src/Transport.antt =====
-- lib/proto/transport.c: calls of a service's methods over MQTT. The MQTT library (directory
-- lib/mqtt) and the protobuf library are parameters, and so are the client's callbacks `relay` and
-- `error`, whose answers depend on all that they were called with before. Allocations succeed.
pub mod Command
pub mod Ready
pub mod Granted
pub mod Topics
mod Tests
use sipecho.Common.{
  ℕ, zero, suc, ◌+◌, ◌%◌, ◌^◌, Bool, true, false, ltb, leb, ◌==◌, if◌then◌else◌, ◌||◌, ◌&&◌, Option,
  none, some, List, [], ◌∷◌, ◌++◌, length,
}
use sipecho.Xml.Text.{Bytes}

-- An `int`.
pub data ℤ : Type 0 where
  pos negsuc : ℕ → ℤ

abbrev pub minus_one : ℤ
minus_one = negsuc 0

abbrev pub is_negative : ℤ → Bool
is_negative (pos n) = false
is_negative (negsuc n) = true

abbrev pub is_zero : ℤ → Bool
is_zero (pos n) = n == 0
is_zero (negsuc n) = false

-- The codes of mqtt.h that this file uses itself, and those it passes on.
pub data Error : Type 0 where
  malformed_request subscribe_failed connection_refused null_pointer : Error
  other : ℕ → Error

-- What packing answers: a packet, 0 where the buffer is too small, or a negative code.
pub data Packed : Type 0 where
  packed : Bytes → Packed
  too_small : Packed
  failed : Error → Packed

-- A response by its control type, with what `command` reads of it: a return code, the return codes
-- of a subscription, or a topic and a message; `quiet` stands for the types that need no answer.
pub data Response : Type 0 where
  connack : ℕ → Response
  suback : List ℕ → Response
  publish : Bytes → Bytes → Response
  quiet unknown : Response

pub data Unpacked : Type 0 where
  unpacked : ℕ → Response → Unpacked
  not_unpacked : Error → Unpacked

-- The fields of the descriptor that are read.
pub record Descriptor : Type 0 where
  pub name : Bytes
  pub methods : List Bytes

-- `transport_t` without its functions.
pub record Transport : Type 0 where
  pub descriptor : Descriptor
  pub to : Bytes
  pub user : Bytes
  pub password : Bytes
  pub host : Bytes
  pub flags : ℕ
  pub alive : ℕ
  pub id : ℕ
  pub port : ℕ
  pub subscribes : ℕ
  pub ready : Bool

-- A call of `relay`, of `error`, of a method of the service, or of a closure with null.
pub data Event : Type 0 where
  relayed : Bytes → Event
  reported : Error → Event
  called : ℕ → Bytes → Event
  closed : Event

pub record World : Type 0 where
  pub transport : Transport
  pub log : List Event

-- What the file calls. `unpack_message` is given the method and answers none for null.
pub record Library : Type 0 where
  pub decimal : ℕ → Bytes
  pub pack_connection : ℕ → Bytes → Transport → Packed
  pub pack_publish : ℕ → Bytes → ℕ → Bytes → Packed
  pub pack_subscribe : ℕ → ℕ → Bytes → Packed
  pub pack_ping : ℕ → Packed
  pub pack_disconnect : ℕ → Packed
  pub unpack_response : Bytes → Unpacked
  pub unpack_message : ℕ → Bytes → Option Bytes
  pub relay : List Event → Bytes → ℤ
  pub error : List Event → Error → ℤ

abbrev pub slash : ℕ
slash = b'/'

-- `packet_id`: the id is a `uint16_t`.
unfoldable pub packet_id : Transport → ℕ × Transport
packet_id t = let id = (t.id + 1) % 2 ^ 16 in (id, record t { id = id })

-- `transport_new` with a service and both callbacks.
abbrev pub transport_new : Descriptor → Bytes → Bytes → Bytes → Bytes → ℕ → ℕ → Transport
transport_new d to user password host flags alive = record {
  descriptor = d;
  to = to;
  user = user;
  password = password;
  host = host;
  flags = flags;
  alive = alive;
  id = 0;
  port = 0;
  subscribes = 0;
  ready = false;
}

module _ (lib : Library) where
  abbrev pub heard : World → Event → World
  heard w e = record w { log = w.log ++ (e ∷ []) }

  -- `ERROR`
  abbrev pub report : World → Error → ℤ × World
  report w e = (lib.error w.log e, heard w (reported e))

  -- `"%s/%s/%s/%hu"`
  unfoldable pub topic_of : Bytes → Bytes → Bytes → ℕ → Bytes
  topic_of name method host port =
      name ++ (slash ∷ (method ++ (slash ∷ (host ++ (slash ∷ lib.decimal port)))))

  abbrev pub returned : ℤ × World → Option ℤ × World
  returned (a, w) = (some a, w)

  -- `if (len > 0 && !RELAY(t, buf, len))`: none where the client takes the packet.
  unfoldable pub dispatch : World → Packed → Option ℤ × World
  dispatch w (packed buf) =
      (if is_zero (lib.relay w.log buf) then none else some minus_one, heard w (relayed buf))
  dispatch w too_small = (some minus_one, w)
  dispatch w (failed e) = returned (report w e)

  abbrev pub or_zero : Option ℤ × World → ℤ × World
  or_zero (none, w) = (pos 0, w)
  or_zero (some a, w) = (a, w)

  -- `begin`
  unfoldable pub begin : World → ℕ → ℤ × World
  unfolding dispatch
  begin w port =
      let t = record w.transport { port = port } in
      let id = lib.decimal port ++ (b'@' ∷ (t.host ++ (b'@' ∷ t.descriptor.name))) in
      or_zero (dispatch (record w { transport = t }) (lib.pack_connection 256 id t))

  -- `end`
  unfoldable pub end : World → ℤ × World
  unfolding dispatch
  end w = or_zero (dispatch w (lib.pack_disconnect 16))

  -- `ping`
  unfoldable pub ping : World → ℤ × World
  unfolding dispatch
  ping w = or_zero (dispatch w (lib.pack_ping 16))

  -- A round of `subscribe` for the method at `i`; none where the loop goes on.
  abbrev pub subscribe_one : ℕ → Bytes → World → Option ℤ × World
  subscribe_one i method w =
      let t = w.transport in
      let topic = topic_of t.descriptor.name method t.host t.port in
      if leb 256 (length topic)
      then returned (report w subscribe_failed)
      else dispatch w (lib.pack_subscribe 512 (i + 1) topic)

  abbrev pub unless_returned : Option ℤ × World → (World → Option ℤ × World) → Option ℤ × World
  unless_returned (none, w) k = k w
  unless_returned (some a, w) k = (some a, w)

  -- The methods from the last to the one at `i`.
  unfoldable pub subscribe_from : ℕ → List Bytes → World → Option ℤ × World
  unfolding dispatch topic_of
  subscribe_from i [] w = (none, w)
  subscribe_from i (method ∷ methods) w =
      unless_returned (subscribe_from (i + 1) methods w) (subscribe_one i method)

  -- `subscribe`
  unfoldable pub subscribe : World → ℤ × World
  unfolding subscribe_from
  subscribe w = or_zero (subscribe_from 0 w.transport.descriptor.methods w)

  abbrev pub closed_if : Bool → World → World
  closed_if closure w = if closure then heard w closed else w

  abbrev pub published : Bool → Option ℤ × World → World
  published closure (none, w) = w
  published closure (some a, w) = closed_if closure w

  -- `invoke` of the method with this name; `closure` tells whether there is one, and `message` is
  -- packed. The topic is written into 128 bytes and the message into 4096, whatever their lengths.
  unfoldable pub invoke : World → Bytes → Bool → Bytes → World
  unfolding dispatch packet_id topic_of
  invoke w method closure [] = closed_if closure w
  invoke w method closure (c ∷ message) =
      let topic = topic_of w.transport.to method w.transport.host w.transport.port in
      let (id, t) = packet_id w.transport in
      published closure (
        dispatch (record w { transport = t })
          (lib.pack_publish (256 + length (c ∷ message)) topic id (c ∷ message)))
