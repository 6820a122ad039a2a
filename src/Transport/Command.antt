-- ===== src/Transport/Command.antt =====
-- lib/proto/transport.c: incoming messages, with `get_topic`, `input` and `command`, and the calls that
-- a client makes.
use sipecho.Common.{
  ℕ, zero, suc, ◌+◌, Bool, true, false, ltb, leb, ◌==◌, if◌then◌else◌, ◌||◌, ◌&&◌, Option, none,
  some, List, [], ◌∷◌, length,
}
use sipecho.Xml.Text.{Bytes}
use sipecho.Transport.{
  ℤ, is_negative, Response, Unpacked, Descriptor, Transport, World, Library, slash, heard, report,
  returned, begin, end, ping, unless_returned, subscribe, invoke, pos, malformed_request,
  subscribe_failed, connection_refused, null_pointer, unpacked, not_unpacked, connack, suback,
  publish, quiet, unknown, called,
}

-- `struct topic`
pub record Topic : Type 0 where
  pub name : Bytes
  pub method : Bytes
  pub host : Bytes
  pub port : Bytes

abbrev pub longer : ℕ → Option (Bytes × Bytes) → Option (Bytes × Bytes)
longer c none = none
longer c (some (a, b)) = some (c ∷ a, b)

-- `memchr(..., '/', size)`: what is before the first slash, and what is behind it.
unfoldable pub split_slash : Bytes → Option (Bytes × Bytes)
split_slash [] = none
split_slash (c ∷ t) =
    let rest = longer c (split_slash t) in if c == slash then some ([], t) else rest

abbrev pub topic_with : Bytes → Bytes → Option (Bytes × Bytes) → Option Topic
topic_with name method none = none
topic_with name method (some (host, port)) =
    some (record { name = name; method = method; host = host; port = port })

abbrev pub topic_host : Bytes → Option (Bytes × Bytes) → Option Topic
topic_host name none = none
topic_host name (some (method, t)) = topic_with name method (split_slash t)

abbrev pub topic_method : Option (Bytes × Bytes) → Option Topic
topic_method none = none
topic_method (some (name, t)) = topic_host name (split_slash t)

-- `get_topic`; none where a slash is missing, as the method is null then.
unfoldable pub get_topic : Bytes → Option Topic
unfolding split_slash
get_topic t = topic_method (split_slash t)

abbrev pub same : Bytes → Bytes → Bool
same [] [] = true
same [] (d ∷ b) = d == 0
same (c ∷ a) [] = c == 0
same (c ∷ a) (d ∷ b) = c == d && (c == 0 || same a b)

-- The loop of `get_method` over the methods from `i`, the last first; `same` is `strcmp(...) == 0`.
unfoldable pub find_method : Bytes → ℕ → List Bytes → ℕ
find_method method i [] = 0
find_method method i (m ∷ ms) =
    let later = find_method method (i + 1) ms in
    if later == 0 then if same method m then i + 1 else 0 else later

abbrev pub method_of : List Bytes → Option Topic → ℕ
method_of methods none = 0
method_of methods (some topic) = find_method topic.method 0 methods

-- `get_method`
unfoldable pub get_method : Descriptor → Bytes → ℕ
unfolding get_topic find_method
get_method d topic = method_of d.methods (get_topic topic)

module _ (lib : Library) where
  abbrev pub delivered : World → ℕ → Option Bytes → World
  delivered w i none = (report lib w null_pointer).1
  delivered w i (some message) = heard lib w (called i message)

  abbrev pub input_for : World → Bytes → ℕ → World
  input_for w message zero = w
  input_for w message (suc i) = delivered w i (lib.unpack_message i message)

  -- `input`
  unfoldable pub input : World → Bytes → Bytes → World
  unfolding get_method
  input w topic message = input_for w message (get_method w.transport.descriptor topic)

  -- `++t->subscribes` and the test behind it.
  abbrev pub granted : Transport → Transport
  granted t =
      let subscribes = t.subscribes + 1 in
      record t {
        subscribes = subscribes;
        ready = if subscribes == length t.descriptor.methods then true else t.ready;
      }

  -- The codes up to 2 are `MQTT_SUBACK_SUCCESS_MAX_QOS_0`, `_1` and `_2`.
  abbrev pub ack_one : ℕ → World → Option ℤ × World
  ack_one code w =
      if leb code 2
      then (none, record w { transport = granted w.transport })
      else returned lib (report lib w subscribe_failed)

  -- The loop over the return codes, the last first.
  unfoldable pub ack_all : List ℕ → World → Option ℤ × World
  ack_all [] w = (none, w)
  ack_all (code ∷ codes) w = unless_returned lib (ack_all codes w) (ack_one code)

  abbrev pub connected : ℤ × World → Option ℤ × World
  connected (a, w) =
      if is_negative a then returned lib (report lib w subscribe_failed) else (none, w)

  -- The code 0 is `MQTT_CONNACK_ACCEPTED`, and 1 to 5 are the refusals.
  abbrev pub connack_by : ℕ → World → Option ℤ × World
  connack_by code w =
      let t = record w.transport { subscribes = 0; ready = false } in
      if code == 0
      then connected (subscribe lib (record w { transport = t }))
      else if leb code 5
      then returned lib (report lib w connection_refused)
      else (none, w)

  -- The switch over the control type; none where it is left by `break`.
  unfoldable pub respond : Response → World → Option ℤ × World
  unfolding subscribe ack_all input
  respond (connack code) w = connack_by code w
  respond (suback codes) w = ack_all codes w
  respond (publish topic message) w = (none, input w topic message)
  respond quiet w = (none, w)
  respond unknown w = returned lib (report lib w malformed_request)

  abbrev pub or_length : ℕ → Option ℤ × World → ℤ × World
  or_length len (none, w) = (pos len, w)
  or_length len (some a, w) = (a, w)

  abbrev pub commanded : World → Unpacked → ℤ × World
  commanded w (not_unpacked e) = report lib w e
  commanded w (unpacked len response) =
      if len == 0 || ltb 32767 len
      then report lib w malformed_request
      else or_length len (respond response w)

  -- `command` with a buffer
  unfoldable pub command : World → Bytes → ℤ × World
  unfolding respond
  command w buf = commanded w (lib.unpack_response buf)

-- The functions that a client calls.
pub data Call : Type 0 where
  begin_call : ℕ → Call
  subscribe_call ping_call end_call : Call
  command_call : Bytes → Call
  invoke_call : Bytes → Bool → Bytes → Call

abbrev pub call : Library → Call → World → World
call lib (begin_call port) w = (begin lib w port).1
call lib subscribe_call w = (subscribe lib w).1
call lib ping_call w = (ping lib w).1
call lib end_call w = (end lib w).1
call lib (command_call buf) w = (command lib w buf).1
call lib (invoke_call method closure message) w = invoke lib w method closure message

abbrev pub calls : Library → List Call → World → World
calls lib [] w = w
calls lib (c ∷ cs) w = calls lib cs (call lib c w)
