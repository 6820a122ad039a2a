-- ===== src/Dns/Between.antt =====
-- A lookup and its answer, with other lookups and packets in between.
use sipecho.Common.{
  ℕ, ◌+◌, ◌<◌, ◌^◌, true, List, ◌≡◌, ◌≢◌, refl, sym, inl, inr, Option, none, some, In, arith,
}
use sipecho.Xml.Text.{Bytes}
use sipecho.Mem.{Mem}
use sipecho.Map.{Node, Map, map_search}
use sipecho.Map.Update.{map_remove, remove_some, map_get}
use sipecho.Map.Remove.{map_remove-In}
use sipecho.Dns.{
  Ldns, Entity, Called, NetEvent, received, new_id, dns_query, last_a, queried, dns_lookup, key_of,
  resolved, answered, dns_execute,
}
use sipecho.Dns.Lookup.{
  IsPending, IdsUpTo-more, map_search_of_id, map_search-id, map_remove-IsPending,
}
use sipecho.Dns.Answer.{new_id_bounds, informed, query_of, asked, destroyed, asked-Added, kept}

module _ {Resolver Rdf Name Packet Rr Address : Type 0}
    (lib : Ldns Resolver Rdf Name Packet Rr Address) where
  -- A packet that is no answer to the lookup with an id.
  abbrev pub IsNoAnswer : ℕ → Mem → Type 0
  IsNoAnswer id incoming =
      (dp : Packet) (rr : List Rr)
      → lib.wire2pkt (received incoming) ≡ some dp
      → lib.answer_section dp ≡ some rr
      → lib.pkt_id dp ≢ id

module _ {Resolver Rdf Name Packet Rr Address Callback : Type 0}
    (lib : Ldns Resolver Rdf Name Packet Rr Address) where
  -- From one connection, with its `__id`, to another, by any lookups, while the ids do not wrap
  -- around, and any packets that are no answers to the lookup with the id `mine`.
  pub data Between (mine id : ℕ) (net : NetEvent Resolver Callback Address)
      : ℕ → NetEvent Resolver Callback Address → Type 0 where
    at_once : Between mine id net id net
    looked :
        (id' : ℕ) (net' : NetEvent Resolver Callback Address) (hostname : Bytes)
        (callback : Option Callback)
        → Between mine id net id' net'
        → id' + 2 < 2 ^ 32
        → Between mine id net (new_id id') (dns_lookup lib id' net' hostname callback).1.net
    executed :
        (id' : ℕ) (net' : NetEvent Resolver Callback Address) (incoming : Mem)
        → Between mine id net id' net'
        → IsNoAnswer lib mine incoming
        → Between mine id net id' (dns_execute lib (record net' { incoming = incoming })).0

  -- The lookup waits.
  abbrev Waiting : ℕ → Node (Entity Callback Address) → Map (Entity Callback Address) → Type 0
  Waiting top n m = IsPending top m × In n m.nodes

  queried-Waiting :
      (n : Node (Entity Callback Address)) (id : ℕ) (net : NetEvent Resolver Callback Address)
      (hostname : Bytes) (callback : Option Callback) (mem : Option Mem)
      → id + 2 < 2 ^ 32
      → Waiting id n net.entities
      → Waiting
          (new_id id)
          n
          (queried lib net (query_of lib (new_id id) hostname callback) mem).net.entities
  queried-Waiting n id net hostname callback none h (v, i) =
      let (lt, le, low) = new_id_bounds id h in
      (
        record {
          is_map = v.is_map;
          single = v.single;
          ids = IdsUpTo-more id (new_id id) net.entities.nodes lt v.ids;
          small = omega arith;
        },
        i,
      )
  queried-Waiting n id net hostname callback (some mem) h (v, i) =
      let (answer, front, pending) = asked-Added lib id net hostname callback v h in
      (pending, rw front (inr i))

  remove_some-IsPending :
      (top : ℕ) (m : Map (Entity Callback Address)) (key : Entity Callback Address) (rr : List Rr)
      (o : Option (Node (Entity Callback Address)))
      → IsPending top m
      → key.id < 2 ^ 32
      → map_search m key 0 ≡ o
      → IsPending top (resolved lib (remove_some m o) rr).0
  unfolding map_remove
  remove_some-IsPending top m key rr none v small e = v
  remove_some-IsPending top m key rr (some x) v small e =
      map_remove-IsPending top m x v (map_search-id top m x key v small e).0

  answered-Waiting :
      (top : ℕ) (n : Node (Entity Callback Address)) (m : Map (Entity Callback Address))
      (o : Option Packet)
      → ((dp : Packet) → lib.pkt_id dp < 2 ^ 16)
      → ((dp : Packet) (rr : List Rr)
          → o ≡ some dp
          → lib.answer_section dp ≡ some rr
          → lib.pkt_id dp ≢ n.item.id)
      → Waiting top n m
      → Waiting top n (answered lib m o).0
  unfolding map_get
  answered-Waiting top n m none short other w = w
  answered-Waiting top n m (some dp) short other (v, i) = by_section (lib.answer_section dp) refl
    where
      by_section :
          (o : Option (List Rr))
          → lib.answer_section dp ≡ o
          → Waiting top n (answered lib m (some dp)).0
      by_section none e = rw (e, answered) (v, i)
      by_section (some rr) e =
          rw (e, answered)
            (
              remove_some-IsPending top m (key_of (lib.pkt_id dp)) rr _ v (omega (arith, short dp))
                  refl,
              kept lib top m n (lib.pkt_id dp) rr _ v i (omega (arith, short dp))
                  (λ q. other dp rr refl e (sym q)) refl,
            )

  Between-Waiting :
      (id : ℕ) (net : NetEvent Resolver Callback Address) (n : Node (Entity Callback Address))
      (id' : ℕ) (net' : NetEvent Resolver Callback Address)
      → ((dp : Packet) → lib.pkt_id dp < 2 ^ 16)
      → Waiting id n net.entities
      → Between n.item.id id net id' net'
      → Waiting id' n net'.entities
  unfolding dns_lookup dns_execute
  Between-Waiting id net n id' net' short w at_once = w
  Between-Waiting id net n _ _ short w (looked id' net' hostname callback s h) =
      queried-Waiting n id' net' hostname callback (dns_query lib net'.foo (new_id id') hostname) h
        (Between-Waiting id net n id' net' short w s)
  Between-Waiting id net n _ _ short w (executed id' net' incoming s other) =
      answered-Waiting id' n net'.entities (lib.wire2pkt (received incoming)) short other
        (Between-Waiting id net n id' net' short w s)

  -- An answer to a lookup: its callback is called, and the others stay.
  pub record CalledOnce (n : Node (Entity Callback Address)) (calls : List (Called Callback))
      (before : Map (Entity Callback Address))
      (o : NetEvent Resolver Callback Address × List (Called Callback)) : Type 0 where
    pub made : o.1 ≡ calls
    pub gone : ¬ In n o.0.entities.nodes
    pub others :
        (y : Node (Entity Callback Address)) → In y before.nodes → y ≢ n → In y o.0.entities.nodes

  -- A lookup that answers 0, with an id below 2^16, is answered by the first packet that has its id
  -- and an answer section, whatever other lookups and packets come in between, while ids do not
  -- wrap around: its callback is called once, with the address of the last A record, or null; it
  -- waits no longer, and the other lookups still wait.
  pub lookup_answered :
      (id : ℕ) (net : NetEvent Resolver Callback Address) (hostname : Bytes)
      (callback : Option Callback) (id' : ℕ) (later : NetEvent Resolver Callback Address)
      (incoming : Mem) (dp : Packet) (rr : List Rr)
      → ((dp : Packet) → lib.pkt_id dp < 2 ^ 16)
      → IsPending id net.entities
      → id + 1 < 2 ^ 16
      → (dns_lookup lib id net hostname callback).1.answer ≡ true
      → Between (new_id id) (new_id id) (dns_lookup lib id net hostname callback).1.net id' later
      → lib.wire2pkt (received incoming) ≡ some dp
      → lib.pkt_id dp ≡ new_id id
      → lib.answer_section dp ≡ some rr
      → CalledOnce
          (record {
            address = net.entities.next;
            item = query_of lib (new_id id) hostname callback;
          })
          (informed lib callback rr)
          later.entities
          (dns_execute lib (record later { incoming = incoming }))
  unfolding dns_lookup dns_execute map_get map_remove
  lookup_answered id net hostname callback id' later incoming dp rr short v small asked_for between
        packet its_id section =
      let n : Node (Entity Callback Address) = record {
        address = net.entities.next;
        item = query_of lib (new_id id) hostname callback;
      } in
      let (pushed, front, pending) = asked-Added lib id net hostname callback v (omega arith) in
      let query = query_of lib (new_id id) hostname callback in
      let waits = asked lib net query (dns_query lib net.foo (new_id id) hostname) asked_for in
      let (v', i) =
        Between-Waiting (new_id id) (dns_lookup lib id net hostname callback).1.net n id' later
          short (rw waits (pending, rw front (inl refl))) between in
      rw
        (
          packet,
          section,
          answered,
          its_id,
          map_search_of_id id' later.entities n (key_of (new_id id)) v' i refl,
        )
        (record {
          made = destroyed lib (new_id id) hostname callback rr (last_a lib rr) refl;
          gone = λ j. ((map_remove-In later.entities n n v'.is_map i).0 j).1 refl;
          others = λ y j ne. (map_remove-In later.entities n y v'.is_map i).1 (j, ne);
        })
