-- ===== src/Sip/Head.antt =====
-- lib/proto/sip/sip.c and sip.h: the headers of a whole message, and the set of bits that selects
-- which headers go back into the parser's struct.
pub mod RoundTrip
use mathlib.Core.Option
use sipecho.Common.{
  ℕ, ◌/◌, ◌%◌, ◌^◌, Bool, true, false, ◌==◌, if◌then◌else◌, Option, none, some, List, [], ◌∷◌, ◌++◌,
  map,
}
use sipecho.Sip.Alloc.{Text, M, ◌>>=◌, ◌>>◌, pure, malloc, dup, null_or, array_or_break}
use sipecho.Sip.Osip
use sipecho.Sip.Proto
use sipecho.Sip.Header.{
  Quoting, call_id_proto, call_id_unproto, cseq_proto, cseq_unproto, pair_proto, pair_unproto,
  uri_proto, uri_unproto, content_type_proto, content_type_unproto, encode_proto, encode_unproto,
  via_proto, via_unproto, address_proto, address_unproto, authorization_proto,
  authorization_unproto, authenticate_proto, authenticate_unproto, authentication_proto,
  authentication_unproto,
}

-- `bitset & (1UL << bit)`
abbrev pub has_bit : ℕ → ℕ → Bool
has_bit bitset bit = bitset / 2 ^ bit % 2 == 1

-- FULL_RESPONSE_BITSET and FULL_REQUEST_BITSET
abbrev pub full_bitset : ℕ
full_bitset = 0xFFFFFFFF

-- The struct that `osip_message_init` makes.
abbrev pub empty_message : Osip.Message
empty_message = record {
  sip_version = none;
  call_id = none;
  cseq = none;
  from = none;
  to = none;
  content_type = none;
  accepts = [];
  accept_encodings = [];
  accept_languages = [];
  alert_infos = [];
  call_infos = [];
  error_infos = [];
  content_encodings = [];
  allows = [];
  contacts = [];
  proxy_authenticates = [];
  proxy_authentication_infos = [];
  proxy_authorizations = [];
  www_authenticates = [];
  authentication_infos = [];
  authorizations = [];
  record_routes = [];
  routes = [];
  vias = [];
  headers = [];
}

module _ (q : Quoting) where
  -- An element of the `Allow` headers: null where the value is.
  unfoldable pub allow_proto : Osip.Allow → M Text
  unfolding malloc
  allow_proto a = unquoted a.value
    where
      unquoted : Option Text → M Text
      unquoted none s = (none, s)
      unquoted (some t) s = (malloc >> pure (q.unquote t)) s

  unfoldable pub allow_unproto : Text → Osip.Allow
  allow_unproto t = record { value = some (q.unquote t) }

  -- `sip__head__proto`
  unfoldable pub head_proto : Osip.Message → M Proto.Head
  unfolding address_proto allow_proto authenticate_proto authentication_proto authorization_proto
      call_id_proto content_type_proto cseq_proto encode_proto pair_proto via_proto
  head_proto m = do
    malloc
    p_version ← dup m.sip_version
    p_call_id ← null_or call_id_proto m.call_id
    p_cseq ← null_or cseq_proto m.cseq
    p_from ← null_or (address_proto q) m.from
    p_to ← null_or (address_proto q) m.to
    p_content_type ← null_or content_type_proto m.content_type
    p_accept ← array_or_break content_type_proto m.accepts
    p_accept_encoding ← array_or_break encode_proto m.accept_encodings
    p_accept_language ← array_or_break encode_proto m.accept_languages
    p_alert_info ← array_or_break encode_proto m.alert_infos
    p_call_info ← array_or_break encode_proto m.call_infos
    p_error_info ← array_or_break encode_proto m.error_infos
    p_content_encoding ← array_or_break encode_proto m.content_encodings
    p_allow ← array_or_break allow_proto m.allows
    p_contact ← array_or_break (address_proto q) m.contacts
    p_proxy_authenticate ← array_or_break (authenticate_proto q) m.proxy_authenticates
    p_proxy_authentication ← array_or_break (authentication_proto q) m.proxy_authentication_infos
    p_proxy_authorization ← array_or_break (authorization_proto q) m.proxy_authorizations
    p_authenticate ← array_or_break (authenticate_proto q) m.www_authenticates
    p_authentication ← array_or_break (authentication_proto q) m.authentication_infos
    p_authorization ← array_or_break (authorization_proto q) m.authorizations
    p_record_route ← array_or_break (address_proto q) m.record_routes
    p_route ← array_or_break (address_proto q) m.routes
    p_via ← array_or_break via_proto m.vias
    p_other ← array_or_break pair_proto m.headers
    pure (record {
      version = p_version;
      call_id = p_call_id;
      cseq = p_cseq;
      from = p_from;
      to = p_to;
      content_type = p_content_type;
      accept = p_accept;
      accept_encoding = p_accept_encoding;
      accept_language = p_accept_language;
      alert_info = p_alert_info;
      call_info = p_call_info;
      error_info = p_error_info;
      content_encoding = p_content_encoding;
      allow = p_allow;
      contact = p_contact;
      proxy_authenticate = p_proxy_authenticate;
      proxy_authentication = p_proxy_authentication;
      proxy_authorization = p_proxy_authorization;
      authenticate = p_authenticate;
      authentication = p_authentication;
      authorization = p_authorization;
      record_route = p_record_route;
      route = p_route;
      via = p_via;
      other = p_other;
    })

  -- `sip__head__unproto`: a header goes in if its bit is set, list headers after those of `m`.
  unfoldable pub head_unproto : Osip.Message → Proto.Head → ℕ → Osip.Message
  unfolding address_unproto allow_unproto authenticate_unproto authentication_unproto
      authorization_unproto call_id_unproto content_type_unproto cseq_unproto encode_unproto
      pair_unproto via_unproto
  head_unproto m p bitset = record {
    sip_version = if has_bit bitset 8 then p.version else m.sip_version;
    call_id = if has_bit bitset 2 then Option.map call_id_unproto p.call_id else m.call_id;
    cseq = if has_bit bitset 3 then Option.map cseq_unproto p.cseq else m.cseq;
    from = if has_bit bitset 0 then Option.map (address_unproto q) p.from else m.from;
    to = if has_bit bitset 1 then Option.map (address_unproto q) p.to else m.to;
    content_type =
        if has_bit bitset 12
        then Option.map content_type_unproto p.content_type
        else m.content_type;
    accepts =
        if has_bit bitset 23 then m.accepts ++ map content_type_unproto p.accept else m.accepts;
    accept_encodings =
        if has_bit bitset 24
        then m.accept_encodings ++ map encode_unproto p.accept_encoding
        else m.accept_encodings;
    accept_languages =
        if has_bit bitset 25
        then m.accept_languages ++ map encode_unproto p.accept_language
        else m.accept_languages;
    alert_infos =
        if has_bit bitset 26
        then m.alert_infos ++ map encode_unproto p.alert_info
        else m.alert_infos;
    call_infos =
        if has_bit bitset 27 then m.call_infos ++ map encode_unproto p.call_info else m.call_infos;
    error_infos =
        if has_bit bitset 28
        then m.error_infos ++ map encode_unproto p.error_info
        else m.error_infos;
    content_encodings =
        if has_bit bitset 22
        then m.content_encodings ++ map encode_unproto p.content_encoding
        else m.content_encodings;
    allows = if has_bit bitset 10 then m.allows ++ map allow_unproto p.allow else m.allows;
    contacts =
        if has_bit bitset 19 then m.contacts ++ map (address_unproto q) p.contact else m.contacts;
    proxy_authenticates =
        if has_bit bitset 16
        then m.proxy_authenticates ++ map (authenticate_unproto q) p.proxy_authenticate
        else m.proxy_authenticates;
    proxy_authentication_infos =
        if has_bit bitset 17
        then m.proxy_authentication_infos ++ map (authentication_unproto q) p.proxy_authentication
        else m.proxy_authentication_infos;
    proxy_authorizations =
        if has_bit bitset 18
        then m.proxy_authorizations ++ map (authorization_unproto q) p.proxy_authorization
        else m.proxy_authorizations;
    www_authenticates =
        if has_bit bitset 13
        then m.www_authenticates ++ map (authenticate_unproto q) p.authenticate
        else m.www_authenticates;
    authentication_infos =
        if has_bit bitset 14
        then m.authentication_infos ++ map (authentication_unproto q) p.authentication
        else m.authentication_infos;
    authorizations =
        if has_bit bitset 15
        then m.authorizations ++ map (authorization_unproto q) p.authorization
        else m.authorizations;
    record_routes =
        if has_bit bitset 20
        then m.record_routes ++ map (address_unproto q) p.record_route
        else m.record_routes;
    routes = if has_bit bitset 21 then m.routes ++ map (address_unproto q) p.route else m.routes;
    vias = if has_bit bitset 9 then m.vias ++ map via_unproto p.via else m.vias;
    headers = if has_bit bitset 29 then m.headers ++ map pair_unproto p.other else m.headers;
  }
