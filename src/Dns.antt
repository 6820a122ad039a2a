-- ===== src/Dns.antt =====
-- src/dns.c: lookups that wait for their answers in the map `entities` of a connection.
-- The functions of ldns are a parameter. `event` and `birth` are left out; allocations succeed.
pub mod Order
pub mod Lookup
pub mod Answer
pub mod Between
pub mod Session
mod Tests
use Prim.Native.Nat.{compare}
use sipecho.Common.{
  ℕ, ◌+◌, ◌-◌, ◌/◌, ◌%◌, ◌^◌, Bool, true, false, ◌==◌, ◌&&◌, if◌then◌else◌, Option, none, some,
  List, [], ◌∷◌, Ordering, length,
}
use sipecho.Xml.Text.{Bytes}
use sipecho.Net.{then_by}
use sipecho.Mem.{Mem, mem_new, take, drop}
use sipecho.Map.{Map, map_push, map_push_back}
use sipecho.Map.Update.{map_get}

-- The families that `dns_destroy2` tells apart: AF_INET, AF_INET6, any other.
pub data Family : Type 0 where
  inet inet6 other : Family

-- What dns.c uses of ldns and of the sockets of C; a null pointer is `none`.
pub record Ldns (Resolver Rdf Name Packet Rr Address : Type 0) : Type 0 where
  pub nameserver_count : Resolver → ℕ
  pub has_tsig_keyname : Resolver → Bool
  pub has_tsig_keydata : Resolver → Bool
  pub nameserver : Resolver → Option Rdf
  pub port : Resolver → ℕ
  pub sockaddr_storage : Rdf → ℕ → Option Address
  pub dname_new_frm_str : Bytes → Option Name
  pub is_dname : Name → Bool
  pub prepare_query_pkt : Resolver → Name → Option Packet
  pub set_id : ℕ → Packet → Packet
  pub to_wire : Packet → Option Bytes
  pub wire2pkt : Bytes → Option Packet
  pub pkt_id : Packet → ℕ
  pub answer_section : Packet → Option (List Rr)
  pub is_a : Rr → Bool
  pub rdf : Rr → Rdf
  pub family : Address → Family
  pub inet_ntop : Address → Option Bytes

-- `dns_entity_t`; `id` is the bit pattern of an int.
pub record Entity (Callback Address : Type 0) : Type 0 where
  pub id : ℕ
  pub callback : Option Callback
  pub host : Bytes
  pub ss : Option Address

-- A call of a callback, with its opaque pointer and the address or null.
pub record Called (Callback : Type 0) : Type 0 where
  pub callback : Callback
  pub address : Option Bytes

-- The fields of `net_event_t` that dns.c uses; `foo` is the resolver.
pub record NetEvent (Resolver Callback Address : Type 0) : Type 0 where
  pub foo : Resolver
  pub incoming : Mem
  pub outgoing : Map Mem
  pub entities : Map (Entity Callback Address)

-- The key that `dns_execute` looks for, with an id alone.
abbrev pub key_of : {Callback Address : Type 0} → ℕ → Entity Callback Address
key_of id = record { id = id; callback = none; host = []; ss = none }

-- Byte `i` of an int in memory, the lowest first.
abbrev pub byte : ℕ → ℕ → ℕ
byte i id = id / 256 ^ i % 256

-- `dns_compare`: the sign of `memcmp` on the two ids.
unfoldable pub dns_compare :
    {Callback Address : Type 0} → Entity Callback Address → Entity Callback Address → Ordering
dns_compare a b = then_by (compare (byte 0 a.id) (byte 0 b.id)) (
    then_by (compare (byte 1 a.id) (byte 1 b.id))
      (then_by (compare (byte 2 a.id) (byte 2 b.id)) (compare (byte 3 a.id) (byte 3 b.id))))

-- `++__id`
abbrev pub increment : ℕ → ℕ
increment id = (id + 1) % 2 ^ 32

-- `++__id & 0xffff ? __id : ++__id`
unfoldable pub new_id : ℕ → ℕ
new_id id = if increment id % 2 ^ 16 == 0 then increment (increment id) else increment id

-- What `dns_lookup` leaves: the connection, the calls made, and whether it answers 0.
pub record Looked (Resolver Callback Address : Type 0) : Type 0 where
  pub net : NetEvent Resolver Callback Address
  pub calls : List (Called Callback)
  pub answer : Bool

-- The bytes from `done` to `end` that `dns_execute` reads.
abbrev pub received : Mem → Bytes
received m = take (m.end - m.done) (drop m.done m.buffer)

module _ {Resolver Rdf Name Packet Rr Address : Type 0}
    (lib : Ldns Resolver Rdf Name Packet Rr Address) where
  -- The text of an address.
  abbrev pub address_text : Option Address → Option Bytes
  address_text none = none
  address_text (some ss) = elim (lib.family ss) [
    | inet ↦ lib.inet_ntop ss
    | inet6 ↦ lib.inet_ntop ss
    | other ↦ none
  ]

  abbrev pub to_mem : Option Bytes → Option Mem
  to_mem none = none
  to_mem (some p) = mem_new [] (some p) (length p % 2 ^ 16)

  abbrev pub query_packet : Resolver → ℕ → Name → Option Mem
  query_packet r id n =
      if lib.is_dname n
      then elim (lib.prepare_query_pkt r n) [
        | none ↦ none
        | some dp ↦ to_mem (lib.to_wire (lib.set_id (id % 2 ^ 16) dp))
      ]
      else none

  -- `dns_query` of an A record, by its early returns.
  unfoldable pub dns_query : Resolver → ℕ → Bytes → Option Mem
  unfolding mem_new
  dns_query r id a =
      if lib.nameserver_count r == 0
      then none
      else if lib.has_tsig_keyname r && lib.has_tsig_keydata r
      then none
      else elim (lib.nameserver r) [
        | none ↦ none
        | some ns ↦ elim (lib.sockaddr_storage ns (lib.port r)) [
          | none ↦ none
          | some sa ↦ elim (lib.dname_new_frm_str a) [ none ↦ none | some n ↦ query_packet r id n ]
        ]
      ]

  -- The loop of `dns_execute` over the answers, from the last one to the first.
  abbrev pub last_a : List Rr → Option Rr
  last_a [] = none
  last_a (a ∷ rr) = elim (last_a rr) [
    | some b ↦ some b
    | none ↦ if lib.is_a a then some a else none
  ]

module _ {Resolver Rdf Name Packet Rr Address Callback : Type 0}
    (lib : Ldns Resolver Rdf Name Packet Rr Address) where
  -- `dns_destroy2`, `dns_destroy`: the calls that it makes.
  unfoldable pub dns_destroy : Entity Callback Address → List (Called Callback)
  dns_destroy dns = elim dns.callback [
    | none ↦ []
    | some callback ↦ record { callback = callback; address = address_text lib dns.ss } ∷ []
  ]

  abbrev pub queried :
      NetEvent Resolver Callback Address
      → Entity Callback Address
      → Option Mem
      → Looked Resolver Callback Address
  queried net query none = record { net = net; calls = dns_destroy query; answer = false }
  queried net query (some mem) = record {
    net = record net {
      outgoing = (map_push_back net.outgoing (some mem)).0;
      entities = (map_push net.entities (some query)).0;
    };
    calls = [];
    answer = true;
  }

  -- `dns_lookup` where `net` is the front of `__dns`, with `__id` before and after. Where that map
  -- is empty it answers -1 and does nothing.
  unfoldable pub dns_lookup :
      ℕ
      → NetEvent Resolver Callback Address
      → Bytes
      → Option Callback
      → ℕ × Looked Resolver Callback Address
  unfolding new_id dns_query
  dns_lookup id net hostname callback =
      let query : Entity Callback Address = record {
        id = new_id id;
        callback = callback;
        host = hostname;
        ss = none;
      } in
      (new_id id, queried net query (dns_query lib net.foo query.id hostname))

  -- The port is -1, as an unsigned short.
  abbrev pub with_answer : Entity Callback Address → Option Rr → Entity Callback Address
  with_answer dns none = dns
  with_answer dns (some a) = record dns { ss = lib.sockaddr_storage (lib.rdf a) 65535 }

  abbrev pub resolved :
      Map (Entity Callback Address) × Option (Entity Callback Address)
      → List Rr
      → Map (Entity Callback Address) × List (Called Callback)
  resolved (entities, none) rr = (entities, [])
  resolved (entities, some dns) rr = (entities, dns_destroy (with_answer dns (last_a lib rr)))

  abbrev pub answered :
      Map (Entity Callback Address)
      → Option Packet
      → Map (Entity Callback Address) × List (Called Callback)
  answered entities none = (entities, [])
  answered entities (some dp) = elim (lib.answer_section dp) [
    | none ↦ (entities, [])
    | some rr ↦ resolved (map_get entities (key_of (lib.pkt_id dp)) 0) rr
  ]

  -- `dns_execute`: the connection and the calls made.
  unfoldable pub dns_execute :
      NetEvent Resolver Callback Address
      → NetEvent Resolver Callback Address × List (Called Callback)
  unfolding map_get dns_destroy
  dns_execute net =
      let (entities, calls) = answered net.entities (lib.wire2pkt (received net.incoming)) in
      let m = net.incoming in
      (
        record net { entities = entities; incoming = record m { begin = m.end; done = m.end } },
        calls,
      )
