-- ===== src/Lib.antt =====
-- sipecho: the containers and the conversions that a SIP echo server is built on.
--
-- The program (directories src and lib of the repository) answers SIP requests with the help of a
-- parser library, turns messages into protocol buffers and back, and keeps its events, lookups and
-- registrations in maps. Modelled here are the map, with the search tree that each of its keys
-- stands on; the conversion of messages, which every message of the server goes through; the XML of
-- message bodies; the transport of calls over MQTT; the buffers that messages come in; and the
-- comparisons of the registrar.
--
-- * lib/common/map.c, search tree. Tree.antt has `struct node_t` and the path to a slot.
--   Tree/Search.antt has `maybe_split_for_insert`, `tsearch2` and `tfind2`; Tree/Delete.antt has
--   `tdelete2`, its stack of nodes being the path. Tree/Spec.antt says what a tree stands for, the
--   list of its keys in order, and what the operations are on that list. Tree/Order.antt,
--   Tree/Insert.antt, Tree/Sorted.antt and Tree/Members.antt hold lemmas on these; Tree/Refine.antt
--   and Tree/Delete/Keys.antt compare tree and list. Tree/Balance.antt says when a tree is balanced,
--   Tree/Balance/Insert.antt and Tree/Balance/Delete.antt, with their children, are about the two
--   operations, and Tree/Balance/Height.antt about the way down. Tree/Delete/Stack.antt has the tests
--   of `tdelete2` that lead to `abort()`. Tree/Walk.antt has `twalk2`.
-- * lib/common/map.c and map.h, map. Map.antt has `map_t`, `map_new`, `map_key`, `map_push`,
--   `map_push_back`, `map_search` and `map_find`; Map/Update.antt has `map_remove` and what is built
--   on it; Map/Upsert.antt has `map_push_find`, Map/NewIndex.antt `map_add_key` and `tdestroy2`, and Map/Walk.antt
--   `map_walk` and `map_map`.
--   Map/Invariant.antt says when a map is well-formed, and the other files of Map compare the
--   operations with it. A map is a client of the search tree by way of the list of keys alone, but
--   in Map/Balanced.antt and Map/Balance.antt, which are about the trees of a map.
-- * lib/proto/sip/sip.c, conversion. Sip/Osip.antt has the parser's structs, as far as sip.c uses
--   their fields, and Sip/Proto.antt the messages of type.proto and message.proto. Sip/Alloc.antt
--   has allocation and `__array__proto`; Sip/Header.antt, Sip/Head.antt and Sip/Sdp.antt have the
--   functions `sip__type__..._new`, `_proto` and `_unproto`, `sip__head__proto` and
--   `sip__head__unproto`, without the prefix. Sip/Reason.antt has `sip_reason_by_code`. The
--   RoundTrip modules hold the round trips, and Sip/Header/Exact.antt what holds when allocations
--   fail.
-- * lib/common/xml.c and xml.h, the XML bodies of requests. Xml/Text.antt compares texts,
--   Xml/Element.antt has `xml_element_t`. Xml/Tag.antt (`xml_tag_find`), Xml/Next.antt (`xml_next`),
--   Xml/Attribute.antt (`xml_attribute_next`, `xml_node_compile`, `xml_text_find_key2`) and
--   Xml/Feed.antt (`xml_feed`) read; Xml/Seed.antt (`xml_seed`) writes, and Xml/Seed/Print.antt has a
--   plain printer beside it; Xml/Escape.antt has `xml_text_escape2` and `xml_text_unescape`. The
--   Progress modules say that the loops take bytes, Xml/Feed/Rounds.antt carries what a round of
--   `xml_feed` keeps to its end, and Xml/Feed/Numbering.antt says what levels and ids are to be.
-- * lib/proto/transport.c and transport.h, calls over MQTT. Transport.antt has `transport_t`,
--   `begin`, `subscribe`, `invoke` and the other functions that send, and Transport/Command.antt has
--   `get_topic`, `input` and `command`, all as functions of the transport and of the log of the calls
--   made. Transport/Ready.antt carries the invariant through every call, Transport/Granted.antt
--   counts subscriptions, and Transport/Topics.antt is about topics.
-- * lib/proto/message_clone.c, the copy of a message. Message.antt has descriptors, messages and
--   `protobuf_c_message_clone`; Message/Fits.antt says when a message fits its descriptor,
--   Message/Typing.antt is about that of a copy, and Message/Copy.antt about when it is the same.
-- * lib/proto/message_xml.c, the names of fields in XML. Message/Name.antt has `normal_field_name`,
--   whose loop gets as many rounds as it takes.
-- * src/net.c and src/aor.c, the registrar's maps. Net.antt has `net_port2` and `net_port`, and
--   Aor.antt the comparisons `contact_compare` and `aor_record_cmp`, which are arguments of map_new
--   and map_add_key; Net/Port.antt and Aor/Order.antt are about them.
-- * src/dns.c, lookups. Dns.antt has `dns_entity_t`, `dns_compare`, `dns_query`, `dns_lookup` and
--   `dns_execute` over the map of the lookups that wait, with the ldns library as a parameter.
--   Dns/Order.antt is about the comparison of ids, Dns/Lookup.antt about that map, Dns/Answer.antt
--   about an answer, Dns/Between.antt about a lookup, its answer and what comes in between, and
--   Dns/Session.antt about any sequence of lookups and packets.
-- * src/mem.c, `sip_read` of src/sip.c, and lib/common/strncasestr.c. Mem.antt has `mem_t` and its
--   operations, and the framing of SIP messages in such a buffer, by the content length that the
--   header announces; Mem/Bounds.antt is about its indices.
--
-- Choices. The map is built without MAP_WITH_THREAD, and its allocations succeed; a node's address
-- is a number that no node has had before, and the doubly linked list is a list. A comparison is a
-- function, so a second comparison with the same key gives the same answer: where `tsearch2`
-- passes a node that it has just rotated, the model does not compare with it again. `map_erase`
-- and `map_until` get one round for each node of the list, and each round removes one, so no loop
-- is cut short. `map_add_key` has the result `faulted`, and `mem_align` and the registrar's
-- comparisons have none, where C leaves their behaviour undefined. `tdelete2` stops where the code
-- would follow a null brother, on a tree that is not balanced. The bounded writers of xml.c count
-- bytes without a bound, which is the code's int below 2^31. In sip.c a schedule says which
-- allocations fail, null being `none`; `_unproto` does not check any allocation and is modelled
-- with enough memory. The functions of the parser library that quote and unquote a text are a
-- parameter, with what it documents for texts without quotes, backslashes and line ends as
-- hypotheses. Xml is built without `_XML_HTML_TAG`, as the build files do; a null byte stands
-- behind a buffer that is read; bytes are numbers, classified as in the C locale. `xml_feed`,
-- `xml_node_compile` and `xml_text_find_key2` get as many rounds as there are bytes, and each
-- round takes one; an `id` is a number without a bound, since siblings are fewer than the bytes of
-- a buffer. In transport.c the libraries and the callbacks are parameters; texts are bytes without
-- their null, and the count of granted subscriptions is a number without a bound, which is the
-- code's int below 2^31. In dns.c ids wrap around at 2^32. In message_clone.c a message is copied
-- onto one that was just initialised, and a descriptor pointer stands where an optional field has
-- no flag of its own.
--
-- Not modelled: `map_find_exec` and the iterators of maps; message bodies other than session
-- descriptions, and `sip__message__proto` and `_unproto` around the head; messages from and to
-- XML. Of net.c and aor.c, all but these; of dns.c, making a resolver and its connection; of
-- `sip_read`, what it does with a complete message. Of transport.c: freeing and failed
-- allocations. Of xml.c: entities, `xml_text_merge`, printing, conversions of numbers, freeing.
-- Sockets, the event loop around the SIP and DNS libraries, logging and start-up are input and
-- output; lib/mqtt, md5, g711, json and base64 are copies of other libraries.
pub mod Aor
pub mod Common
pub mod Dns
pub mod Map
pub mod Mem
pub mod Message
pub mod Net
pub mod Sip
pub mod Transport
pub mod Tree
pub mod Xml
