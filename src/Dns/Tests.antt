-- ===== src/Dns/Tests.antt =====
-- A resolver whose packets are an id and a list of addresses, one byte each.
use sipecho.Common.{
  ℕ, ◌+◌, ◌*◌, ◌/◌, ◌%◌, ◌^◌, true, false, List, [], ◌∷◌, ◌++◌, ◌≡◌, refl, inl, Option, none, some,
  In, arith,
}
use sipecho.Xml.Text.{Bytes}
use sipecho.Mem.{Mem}
use sipecho.Tree.Search.{tsearch2}
use sipecho.Map.{Node, Map, map_new, map_push, map_key}
use sipecho.Dns.{
  Ldns, Entity, NetEvent, new_id, dns_compare, dns_query, dns_lookup, dns_execute, inet,
}
use sipecho.Dns.Lookup.{IsPending, map_new-IsPending, map_push-Added}
use sipecho.Dns.Answer.{query_of, informed, lookup_lost}
use sipecho.Dns.Between.{IsNoAnswer, Between, at_once, CalledOnce, lookup_answered}
use sipecho.Dns.Session.{opened, looked, executed, Accounted, Session-Accounted}

abbrev of_wire : Bytes → Option (ℕ × List ℕ)
of_wire [] = none
of_wire (a ∷ []) = none
of_wire (a ∷ b ∷ t) = some (a + 256 * b, t)

abbrev tiny : Ldns ℕ ℕ Bytes (ℕ × List ℕ) ℕ ℕ
tiny = record {
  nameserver_count = λ r. 1;
  has_tsig_keyname = λ r. false;
  has_tsig_keydata = λ r. false;
  nameserver = λ r. some r;
  port = λ r. 53;
  sockaddr_storage = λ d p. some d;
  dname_new_frm_str = λ t. some t;
  is_dname = λ n. true;
  prepare_query_pkt = λ r n. some (0, []);
  set_id = λ id dp. (id, dp.1);
  to_wire = λ dp. some (dp.0 % 256 ∷ dp.0 / 256 ∷ dp.1);
  wire2pkt = of_wire;
  pkt_id = λ dp. dp.0 % 2 ^ 16;
  answer_section = λ dp. some dp.1;
  is_a = λ a. true;
  rdf = λ a. a;
  family = λ a. inet;
  inet_ntop = λ a. some (a ∷ []);
}

abbrev silent : Mem
silent = record { buffer = []; length = 0; begin = 0; done = 0; end = 0 }

-- The answer to the lookup with id 1: two addresses.
abbrev answer : Mem
answer = record { buffer = 1 ∷ 0 ∷ 41 ∷ 42 ∷ []; length = 4; begin = 0; done = 0; end = 4 }

abbrev fresh : Map (Entity ℕ ℕ)
fresh = map_new (dns_compare ∷ [])

abbrev connection : NetEvent ℕ ℕ ℕ
connection = record { foo = 7; incoming = silent; outgoing = map_new []; entities = fresh }

abbrev name : Bytes
name = b'a' ∷ []

abbrev asking : NetEvent ℕ ℕ ℕ
asking = (dns_lookup tiny 0 connection name (some 5)).1.net

asked : (dns_lookup tiny 0 connection name (some 5)).1.answer ≡ true
unfolding dns_lookup
asked = refl

-- The packet carries the id that the lookup has.
sent :
    dns_query tiny 7 1 name
    ≡ some (record { buffer = 1 ∷ 0 ∷ []; length = 2; begin = 0; done = 0; end = 2 })
unfolding dns_query
sent = refl

skips_zero : new_id 65535 ≡ 65537
unfolding new_id
skips_zero = refl

-- Another lookup, and the packet that answers it: its id is 2.
abbrev crossing : NetEvent ℕ ℕ ℕ
crossing = (dns_lookup tiny 1 asking name (some 6)).1.net

abbrev answer_2 : Mem
answer_2 = record { buffer = 2 ∷ 0 ∷ 43 ∷ []; length = 3; begin = 0; done = 0; end = 3 }

abbrev crossed : NetEvent ℕ ℕ ℕ
crossed = (dns_execute tiny (record crossing { incoming = answer_2 })).0

answer_2-IsNoAnswer : IsNoAnswer tiny 1 answer_2
answer_2-IsNoAnswer dp rr packet section same =
    let first : (2, 43 ∷ []) ≡ dp = cc in
    let id : 2 ≡ dp.0 % 2 ^ 16 = rw (← first) refl in absurd (omega (arith, id, same))

crosses : Between tiny (new_id 0) (new_id 0) asking (new_id 1) crossed
unfolding new_id
crosses =
    Between.executed 2 crossing answer_2
      (Between.looked 1 asking name (some 6) at_once (omega arith)) answer_2-IsNoAnswer

lookup_answered_example :
    CalledOnce tiny
      (record { address = 0; item = query_of tiny (new_id 0) name (some 5) })
      (informed tiny (some 5) (41 ∷ 42 ∷ []))
      crossed.entities
      (dns_execute tiny (record crossed { incoming = answer }))
unfolding new_id map_new
lookup_answered_example =
    lookup_answered tiny 0 connection name (some 5) (new_id 1) crossed answer (1, 41 ∷ 42 ∷ [])
      (41 ∷ 42 ∷ []) (λ dp. omega arith) map_new-IsPending (omega arith) asked crosses refl refl
      refl

-- A lookup with an id of 2^16.
abbrev late : Entity ℕ ℕ
late = record { id = 65537; callback = some 5; host = name; ss = none }

abbrev crowded : NetEvent ℕ ℕ ℕ
crowded = record connection { incoming = answer; entities = (map_push fresh (some late)).0 }

abbrev waiting : Node (Entity ℕ ℕ)
waiting = record { address = 0; item = late }

crowded-In : In waiting crowded.entities.nodes
unfolding map_push map_new map_key tsearch2
crowded-In = inl refl

crowded-IsPending : IsPending 65537 crowded.entities
unfolding map_new
crowded-IsPending =
    (map_push-Added 0 65537 fresh late map_new-IsPending tt tt (omega arith) (omega arith)).2

lookup_lost_example : In waiting (dns_execute tiny crowded).0.entities.nodes
lookup_lost_example =
    lookup_lost tiny 65537 crowded waiting (λ dp. omega arith) crowded-IsPending crowded-In
      (omega arith)

Session-Accounted_example :
    Accounted tiny (new_id 0) 1 (dns_execute tiny (record asking { incoming = answer })).0 (
      ([] ++ (dns_lookup tiny 0 connection name (some 5)).1.calls)
      ++ (dns_execute tiny (record asking { incoming = answer })).1)
Session-Accounted_example =
    Session-Accounted tiny (new_id 0) 1 (dns_execute tiny (record asking { incoming = answer })).0
      (([] ++ (dns_lookup tiny 0 connection name (some 5)).1.calls)
        ++ (dns_execute tiny (record asking { incoming = answer })).1)
      (λ dp. omega arith) (omega arith)
      (executed (new_id 0) 1 asking ([] ++ (dns_lookup tiny 0 connection name (some 5)).1.calls)
        answer (looked 0 0 connection [] name 5 (opened connection refl)))
