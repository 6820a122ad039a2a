-- ===== src/Dns/Session.antt =====
-- Lookups and packets in any order, on one connection.
use sipecho.Common.{
  ℕ, suc, ◌+◌, ◌<◌, ◌≤◌, ◌^◌, List, [], ◌∷◌, ◌++◌, ◌≡◌, ◌∙◌, inl, inr, refl, ap, Option, none, some,
  In, length, length-append, arith,
}
use sipecho.Xml.Text.{Bytes}
use sipecho.Mem.{Mem}
use sipecho.Map.{Node, map_new, map_search}
use sipecho.Map.Update.{unlink, map_remove, remove_some, map_get}
use sipecho.Map.Remove.{length-unlink, unlink-In}
use sipecho.Dns.{
  Ldns, Entity, Called, NetEvent, received, new_id, dns_compare, dns_query, dns_destroy, queried,
  dns_lookup, with_answer, key_of, resolved, answered, dns_execute, last_a,
}
use sipecho.Dns.Lookup.{
  IsPending, IdsUpTo-more, map_search-id, map_remove-IsPending, map_new-IsPending,
}
use sipecho.Dns.Answer.{new_id_bounds, asked-Added}

module _ {Resolver Rdf Name Packet Rr Address Callback : Type 0}
    (lib : Ldns Resolver Rdf Name Packet Rr Address) where
  -- What a program can make of a connection with lookups that have a callback, and with packets:
  -- `__id`, the number of lookups, the connection, and all calls made.
  pub data Session
      : ℕ → ℕ → NetEvent Resolver Callback Address → List (Called Callback) → Type 0 where
    opened :
        (net : NetEvent Resolver Callback Address)
        → net.entities ≡ map_new (dns_compare ∷ [])
        → Session 0 0 net []
    looked :
        (id count : ℕ) (net : NetEvent Resolver Callback Address) (calls : List (Called Callback))
        (hostname : Bytes) (callback : Callback)
        → Session id count net calls
        → Session
            (new_id id)
            (suc count)
            (dns_lookup lib id net hostname (some callback)).1.net
            (calls ++ (dns_lookup lib id net hostname (some callback)).1.calls)
    executed :
        (id count : ℕ) (net : NetEvent Resolver Callback Address) (calls : List (Called Callback))
        (incoming : Mem)
        → Session id count net calls
        → Session id count
            (dns_execute lib (record net { incoming = incoming })).0
            (calls ++ (dns_execute lib (record net { incoming = incoming })).1)

  abbrev AllCall : List (Node (Entity Callback Address)) → Type 0
  AllCall [] = Unit
  AllCall (n ∷ ns) = ((c : Callback) × (n.item.callback ≡ some c)) × AllCall ns

  AllCall-In :
      (ns : List (Node (Entity Callback Address))) (n : Node (Entity Callback Address))
      → AllCall ns
      → In n ns
      → (c : Callback) × (n.item.callback ≡ some c)
  AllCall-In [] n h i = absurd i
  AllCall-In (x ∷ ns) n h (inl e) = rw e h.0
  AllCall-In (x ∷ ns) n h (inr i) = AllCall-In ns n h.1 i

  AllCall-of_In :
      (ns : List (Node (Entity Callback Address)))
      → ((n : Node (Entity Callback Address))
          → In n ns
          → (c : Callback) × (n.item.callback ≡ some c))
      → AllCall ns
  AllCall-of_In [] h = tt
  AllCall-of_In (x ∷ ns) h = (h x (inl refl), AllCall-of_In ns (λ n i. h n (inr i)))

  -- Every lookup waits, or has made one call.
  pub record Accounted (id count : ℕ) (net : NetEvent Resolver Callback Address)
      (calls : List (Called Callback)) : Type 0 where
    pub pending : IsPending id net.entities
    pub all_call : AllCall net.entities.nodes
    pub counted : length calls + length net.entities.nodes ≡ count
    pub issued : id ≤ count + count

  called :
      (dns : Entity Callback Address) (c : Callback)
      → dns.callback ≡ some c
      → length (dns_destroy lib dns) ≡ 1
  unfolding dns_destroy
  called dns c e = rw e refl

  answer_callback :
      (dns : Entity Callback Address) (o : Option Rr)
      → (with_answer lib dns o).callback ≡ dns.callback
  answer_callback dns none = refl
  answer_callback dns (some a) = refl

  module _ (id count : ℕ) (net : NetEvent Resolver Callback Address)
      (calls : List (Called Callback)) (v : Accounted id count net calls) where
    removed-Accounted :
        (n : Node (Entity Callback Address)) (rr : List Rr) (m : Mem)
        → In n net.entities.nodes
        → Accounted id count
            (record net { incoming = m; entities = (map_remove net.entities n).0 })
            (calls ++ dns_destroy lib (with_answer lib n.item (last_a lib rr)))
    unfolding map_remove
    removed-Accounted n rr m i =
        let (c, e) = AllCall-In net.entities.nodes n v.all_call i in
        record {
          pending = map_remove-IsPending id net.entities n v.pending i;
          all_call = AllCall-of_In (unlink n.address net.entities.nodes) (λ x j.
              AllCall-In net.entities.nodes x v.all_call
                (unlink-In n.address net.entities.nodes x j));
          counted = omega (
            arith,
            length-append calls (dns_destroy lib (with_answer lib n.item (last_a lib rr))),
            called (with_answer lib n.item (last_a lib rr)) c
                (answer_callback n.item (last_a lib rr) ∙ e),
            length-unlink net.entities.nodes n i,
            v.counted,
          );
          issued = v.issued;
        }

    idle-Accounted : (m : Mem) → Accounted id count (record net { incoming = m }) (calls ++ [])
    idle-Accounted m = record {
      pending = v.pending;
      all_call = v.all_call;
      counted = omega (arith, length-append calls [], v.counted);
      issued = v.issued;
    }

    resolved-Accounted :
        (m : Mem) (key : Entity Callback Address) (rr : List Rr)
        (o : Option (Node (Entity Callback Address)))
        → key.id < 2 ^ 32
        → map_search net.entities key 0 ≡ o
        → Accounted id count
            (record net {
              incoming = m;
              entities = (resolved lib (remove_some net.entities o) rr).0;
            })
            (calls ++ (resolved lib (remove_some net.entities o) rr).1)
    unfolding map_remove
    resolved-Accounted m key rr none small e = idle-Accounted m
    resolved-Accounted m key rr (some n) small e =
        removed-Accounted n rr m (map_search-id id net.entities n key v.pending small e).0

    answered-Accounted :
        (m : Mem) (o : Option Packet)
        → ((dp : Packet) → lib.pkt_id dp < 2 ^ 16)
        → Accounted id count
            (record net { incoming = m; entities = (answered lib net.entities o).0 })
            (calls ++ (answered lib net.entities o).1)
    unfolding map_get
    answered-Accounted m none short = idle-Accounted m
    answered-Accounted m (some dp) short = by_section (lib.answer_section dp) refl
      where
        by_section :
            (o : Option (List Rr))
            → lib.answer_section dp ≡ o
            → Accounted id count
                (record net { incoming = m; entities = (answered lib net.entities (some dp)).0 })
                (calls ++ (answered lib net.entities (some dp)).1)
        by_section none e = rw (e, answered) (idle-Accounted m)
        by_section (some rr) e =
            rw (e, answered)
              (resolved-Accounted m (key_of (lib.pkt_id dp)) rr
                (map_search net.entities (key_of (lib.pkt_id dp)) 0) (omega (arith, short dp)) refl)

    queried-Accounted :
        (hostname : Bytes) (callback : Callback) (mem : Option Mem)
        → id + 2 < 2 ^ 32
        → Accounted
            (new_id id)
            (suc count)
            (queried lib net
              (record { id = new_id id; callback = some callback; host = hostname; ss = none })
              mem).net
            (calls
              ++ (queried lib net
                  (record { id = new_id id; callback = some callback; host = hostname; ss = none })
                  mem).calls)
    queried-Accounted hostname callback none h =
        let (lt, le, low) = new_id_bounds id h in
        let query : Entity Callback Address = record {
          id = new_id id;
          callback = some callback;
          host = hostname;
          ss = none;
        } in
        record {
          pending = record {
            is_map = v.pending.is_map;
            single = v.pending.single;
            ids = IdsUpTo-more id (new_id id) net.entities.nodes lt v.pending.ids;
            small = omega arith;
          };
          all_call = v.all_call;
          counted = omega (
            arith,
            length-append calls (dns_destroy lib query),
            called query callback refl,
            v.counted,
          );
          issued = omega (arith, v.issued);
        }
    queried-Accounted hostname callback (some mem) h =
        let (lt, le, low) = new_id_bounds id h in
        let (answer, front, pending) =
          asked-Added lib id net hostname (some callback) v.pending h in
        record {
          pending = pending;
          all_call = rw front ((callback, refl), v.all_call);
          counted = omega (arith, length-append calls [], ap length front, v.counted);
          issued = omega (arith, v.issued);
        }

  -- Of up to 2^31 - 2 lookups with callbacks on one connection, with packets in between in any
  -- order: each waits in the map, or its callback has been called once. Packet ids are below 2^16.
  pub Session-Accounted :
      (id count : ℕ) (net : NetEvent Resolver Callback Address) (calls : List (Called Callback))
      → ((dp : Packet) → lib.pkt_id dp < 2 ^ 16)
      → count + 1 < 2 ^ 31
      → Session id count net calls
      → Accounted id count net calls
  unfolding dns_lookup dns_execute map_new
  Session-Accounted id count net calls short few (opened _ e) = record {
    pending = rw e map_new-IsPending;
    all_call = rw (e, map_new) tt;
    counted = rw (e, map_new) refl;
    issued = omega arith;
  }
  Session-Accounted id count net calls short few
        (looked id' count' net' calls' hostname callback s) =
      let v = Session-Accounted id' count' net' calls' short (omega arith) s in
      queried-Accounted id' count' net' calls' v hostname callback
        (dns_query lib net'.foo (new_id id') hostname) (omega (arith, v.issued))
  Session-Accounted id count net calls short few (executed _ _ net' calls' incoming s) =
      let v = Session-Accounted id count net' calls' short few s in
      answered-Accounted id count net' calls' v
        (record incoming { begin = incoming.end; done = incoming.end })
        (lib.wire2pkt (received incoming)) short
