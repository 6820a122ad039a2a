-- ===== src/Dns/Answer.antt =====
-- A lookup and its answer.
use sipecho.Common.{
  if◌then◌else◌, ℕ, ◌+◌, ◌%◌, ◌<◌, ◌≤◌, ◌^◌, true, List, [], ◌∷◌, ◌≡◌, ◌≢◌, refl, sym, ◌∙◌, Option,
  none, some, In, Bool, false, arith,
}
use sipecho.Xml.Text.{Bytes}
use sipecho.Mem.{Mem}
use sipecho.Map.{Node, Map, map_push, map_search}
use sipecho.Map.Update.{remove_some, map_get}
use sipecho.Map.Remove.{map_remove-In}
use sipecho.Dns.{
  Ldns, Entity, Called, NetEvent, received, new_id, address_text, last_a, dns_destroy, queried,
  with_answer, key_of, resolved, answered, dns_execute,
}
use sipecho.Dns.Lookup.{IsPending, IdsUpTo-more, NoId-above, Added, map_push-Added, map_search-id}

-- The next id is greater by one or two, and its low 16 bits are not 0.
pub new_id_bounds :
    (id : ℕ) → id + 2 < 2 ^ 32 → (id < new_id id) × (new_id id ≤ id + 2) × (new_id id % 2 ^ 16 ≢ 0)
unfolding new_id
new_id_bounds id h = ground arith

abbrev pub final : {A : Type 0} → List A → Option A
final [] = none
final (a ∷ []) = some a
final (a ∷ b ∷ l) = final (b ∷ l)

final-some : {A : Type 0} (a : A) (l : List A) → (x : A) × (final (a ∷ l) ≡ some x)
final-some a [] = (a, refl)
final-some a (b ∷ l) = final-some b l

final-cons :
    {A : Type 0} (a : A) (l : List A)
    → final (a ∷ l) ≡ elim (final l) [ some b ↦ some b | none ↦ some a ]
final-cons a [] = refl
final-cons a (b ∷ l) = let (x, e) = final-some b l in rw e refl

module _ {Resolver Rdf Name Packet Rr Address : Type 0}
    (lib : Ldns Resolver Rdf Name Packet Rr Address) where
  -- The address that an answer section gives: that of its last A record, or null.
  abbrev pub address_by : Option Rr → Option Bytes
  address_by none = none
  address_by (some a) = address_text lib (lib.sockaddr_storage (lib.rdf a) 65535)

  abbrev pub a_records : List Rr → List Rr
  a_records [] = []
  a_records (a ∷ rr) = if lib.is_a a then a ∷ a_records rr else a_records rr

  last_a-final : (rr : List Rr) → last_a lib rr ≡ final (a_records rr)
  last_a-final [] = refl
  last_a-final (a ∷ rr) = by_test (lib.is_a a) a (last_a lib rr) (a_records rr) (last_a-final rr)
    where
      by_test :
          (b : Bool) (a : Rr) (o : Option Rr) (l : List Rr)
          → o ≡ final l
          → elim o [ some x ↦ some x | none ↦ if b then some a else none ]
            ≡ final (if b then a ∷ l else l)
      by_test true a none l e = rw (final-cons a l, sym e) refl
      by_test true a (some x) l e = rw (final-cons a l, sym e) refl
      by_test false a none l e = e
      by_test false a (some x) l e = e

module _ {Resolver Rdf Name Packet Rr Address Callback : Type 0}
    (lib : Ldns Resolver Rdf Name Packet Rr Address) where
  abbrev pub informed : Option Callback → List Rr → List (Called Callback)
  informed none rr = []
  informed (some c) rr =
      record { callback = c; address = address_by lib (final (a_records lib rr)) } ∷ []

  abbrev pub query_of : ℕ → Bytes → Option Callback → Entity Callback Address
  query_of id hostname callback = record {
    id = id;
    callback = callback;
    host = hostname;
    ss = none;
  }

  -- What a lookup that answers 0 leaves waiting.
  pub asked :
      (net : NetEvent Resolver Callback Address) (query : Entity Callback Address)
      (mem : Option Mem)
      → (queried lib net query mem).answer ≡ true
      → (queried lib net query mem).net.entities ≡ (map_push net.entities (some query)).0
  asked net query none e = cc
  asked net query (some mem) e = refl

  pub destroyed :
      (id : ℕ) (hostname : Bytes) (callback : Option Callback) (rr : List Rr) (o : Option Rr)
      → last_a lib rr ≡ o
      → dns_destroy lib (with_answer lib (query_of id hostname callback) o) ≡ informed callback rr
  unfolding dns_destroy
  destroyed id hostname none rr none e = refl
  destroyed id hostname none rr (some a) e = refl
  destroyed id hostname (some c) rr none e = rw (sym (last_a-final lib rr) ∙ e) refl
  destroyed id hostname (some c) rr (some a) e = rw (sym (last_a-final lib rr) ∙ e) refl

  module _ (id : ℕ) (net : NetEvent Resolver Callback Address) (hostname : Bytes)
      (callback : Option Callback) (v : IsPending id net.entities) where
    abbrev pub query : Entity Callback Address
    query = query_of (new_id id) hostname callback

    pub asked-Added :
        id + 2 < 2 ^ 32 → Added (new_id id) net.entities query (map_push net.entities (some query))
    asked-Added h =
        let (lt, le, low) = new_id_bounds id h in
        map_push-Added id (new_id id) net.entities query v
          (NoId-above id (new_id id) net.entities.nodes lt v.ids)
          (IdsUpTo-more id (new_id id) net.entities.nodes lt v.ids) (omega arith) (omega arith)

  pub kept :
      (top : ℕ) (m : Map (Entity Callback Address)) (n : Node (Entity Callback Address)) (id : ℕ)
      (rr : List Rr) (o : Option (Node (Entity Callback Address)))
      → IsPending top m
      → In n m.nodes
      → id < 2 ^ 32
      → n.item.id ≢ id
      → map_search m (key_of id) 0 ≡ o
      → In n (resolved lib (remove_some m o) rr).0.nodes
  kept top m n id rr none v i small other e = i
  kept top m n id rr (some x) v i small other e =
      let (j, same) = map_search-id top m x (key_of id) v small e in
      (map_remove-In m x n v.is_map j).1 (i, λ q. other (rw q (sym same)))

  -- No packet is the answer to a lookup whose id is 2^16 or more: since the ids of packets are below
  -- 2^16, it waits on after every packet.
  pub lookup_lost :
      (top : ℕ) (net : NetEvent Resolver Callback Address) (n : Node (Entity Callback Address))
      → ((dp : Packet) → lib.pkt_id dp < 2 ^ 16)
      → IsPending top net.entities
      → In n net.entities.nodes
      → 2 ^ 16 ≤ n.item.id
      → In n (dns_execute lib net).0.entities.nodes
  unfolding dns_execute map_get
  lookup_lost top net n short v i large = by_packet (lib.wire2pkt (received net.incoming))
    where
      by_section :
          (dp : Packet) (o : Option (List Rr))
          → lib.answer_section dp ≡ o
          → In n (answered lib net.entities (some dp)).0.nodes
      by_section dp none e = rw (e, answered) i
      by_section dp (some rr) e =
          rw (e, answered)
            (kept top net.entities n (lib.pkt_id dp) rr _ v i (omega (arith, short dp))
              (λ q. absurd (omega (arith, short dp))) refl)

      by_packet : (o : Option Packet) → In n (answered lib net.entities o).0.nodes
      by_packet none = i
      by_packet (some dp) = by_section dp (lib.answer_section dp) refl
