-- ===== src/Sip/Tests.antt =====
-- Protocol buffers with every field filled, and the theorems about their conversion.
use sipecho.Common.{
  ℕ, ◌+◌, ◌==◌, if◌then◌else◌, true, false, some, none, [], ◌∷◌, ◌++◌, ◌≡◌, refl, ap, arith, ne_eq,
}
use sipecho.Sip.Alloc.{Text, Sched, malloc, dup, dup_or_break, array_or_break}
use sipecho.Sip.Proto
use sipecho.Sip.Header.{
  Quoting, uri_proto, uri_unproto, content_type_proto, content_type_unproto, via_proto, via_unproto,
  authenticate_proto, authenticate_unproto, authentication_proto, authentication_unproto,
}
use sipecho.Sip.Header.Exact.{Fails, Post, UriCopied, uri_proto-UriCopied}
use sipecho.Sip.Header.RoundTrip.{
  IsPlain, QuotingLaws, uri_round, content_type_round, via_round, PlainAuthorization,
  PlainAuthenticate, authenticate_round, PlainAuthentication, authentication_round,
}
use sipecho.Sip.Head.{head_proto, head_unproto, empty_message, full_bitset}
use sipecho.Sip.Head.RoundTrip.{PlainHead, head_round}
use sipecho.Sip.Reason.{sip_reason_by_code}
use sipecho.Sip.Sdp.{sdp_proto, sdp_unproto}
use sipecho.Sip.Sdp.RoundTrip.{sdp_round}

-- A text of one letter, and its plainness.
abbrev text : ℕ → Text
text i = (97 + i) ∷ []

text-IsPlain : (i : ℕ) → IsPlain (text i)
text-IsPlain i = ((omega arith, omega arith, omega arith, omega arith), tt)

-- Quotes around a text, and off it again.
abbrev drop_last : Text → Text
drop_last [] = []
drop_last (c ∷ []) = []
drop_last (c ∷ d ∷ t) = c ∷ drop_last (d ∷ t)

abbrev strip : Text → Text
strip [] = []
strip (c ∷ t) = if c == 34 then drop_last t else c ∷ t

abbrev quoting : Quoting
quoting = record { unquote = strip; enquote = λ t. 34 ∷ (t ++ (34 ∷ [])) }

drop_last-snoc : (t : Text) (c : ℕ) → drop_last (t ++ (c ∷ [])) ≡ t
drop_last-snoc [] c = refl
drop_last-snoc (d ∷ []) c = refl
drop_last-snoc (d ∷ e ∷ t) c = ap (◌∷◌ d) (drop_last-snoc (e ∷ t) c)

strip_plain : (t : Text) → IsPlain t → strip t ≡ t
strip_plain [] h = refl
strip_plain (c ∷ t) h = rw (ne_eq c 34 (λ e. h.0.0 (omega (arith, e))), strip)

quoting_laws : QuotingLaws quoting
quoting_laws = record { unquote-enquote = λ t h. drop_last-snoc t 34; unquote_plain = strip_plain }

abbrev a_call_id : Proto.CallId
a_call_id = record { number = some (text 0); host = some (text 1) }

abbrev a_cseq : Proto.Cseq
a_cseq = record { method = some (text 0); number = some (text 1) }

abbrev a_pair : Proto.Pair
a_pair = record { name = some (text 0); value = some (text 1) }

abbrev a_uri : Proto.Uri
a_uri = record {
  scheme = some (text 0);
  username = some (text 1);
  password = some (text 2);
  host = some (text 3);
  port = some (text 4);
  url_params = a_pair ∷ [];
  url_headers = a_pair ∷ [];
  other = some (text 7);
}

abbrev a_address : Proto.Address
a_address = record { displayname = some (text 0); url = some a_uri; gen_params = a_pair ∷ [] }

abbrev a_content_type : Proto.ContentType
a_content_type = record { type = some (text 0); subtype = some (text 1); gen_params = a_pair ∷ [] }

abbrev a_encode : Proto.Encode
a_encode = record { element = some (text 0); gen_params = a_pair ∷ [] }

abbrev a_authorization : Proto.Authorization
a_authorization = record {
  auth_type = some (text 0);
  username = some (text 1);
  realm = some (text 2);
  nonce = some (text 3);
  uri = some (text 4);
  response = some (text 5);
  digest = some (text 6);
  algorithm = some (text 7);
  cnonce = some (text 8);
  opaque = some (text 9);
  message_qop = some (text 10);
  nonce_count = some (text 11);
  auth_param = some (text 12);
}

abbrev a_authenticate : Proto.Authenticate
a_authenticate = record {
  auth_type = some (text 0);
  realm = some (text 1);
  domain = some (text 2);
  nonce = some (text 3);
  opaque = some (text 4);
  stale = some (text 5);
  algorithm = some (text 6);
  qop_options = some (text 7);
  auth_param = some (text 8);
}

abbrev a_authentication : Proto.Authentication
a_authentication = record {
  nextnonce = some (text 0);
  qop_options = some (text 1);
  rspauth = some (text 2);
  cnonce = some (text 3);
  nonce_count = some (text 4);
}

abbrev a_via : Proto.Via
a_via = record {
  version = some (text 0);
  protocol = some (text 1);
  host = some (text 2);
  port = some (text 3);
  comment = some (text 4);
  via_params = a_pair ∷ [];
}

abbrev a_head : Proto.Head
a_head = record {
  version = some (text 0);
  call_id = some a_call_id;
  cseq = some a_cseq;
  from = some a_address;
  to = some a_address;
  content_type = some a_content_type;
  accept = a_content_type ∷ [];
  accept_encoding = a_encode ∷ [];
  accept_language = a_encode ∷ [];
  alert_info = a_encode ∷ [];
  call_info = a_encode ∷ [];
  error_info = a_encode ∷ [];
  content_encoding = a_encode ∷ [];
  allow = text 13 ∷ [];
  contact = a_address ∷ [];
  proxy_authenticate = a_authenticate ∷ [];
  proxy_authentication = a_authentication ∷ [];
  proxy_authorization = a_authorization ∷ [];
  authenticate = a_authenticate ∷ [];
  authentication = a_authentication ∷ [];
  authorization = a_authorization ∷ [];
  record_route = a_address ∷ [];
  route = a_address ∷ [];
  via = a_via ∷ [];
  other = a_pair ∷ [];
}

abbrev a_connection : Proto.Connection
a_connection = record {
  c_addr = some (text 0);
  c_addrtype = some (text 1);
  c_nettype = some (text 2);
  c_addr_multicast_int = some (text 3);
  c_addr_multicast_ttl = some (text 4);
}

abbrev a_bandwidth : Proto.Bandwidth
a_bandwidth = record { b_bandwidth = some (text 0); b_bwtype = some (text 1) }

abbrev a_time : Proto.Time
a_time = record {
  t_start_time = some (text 0);
  t_stop_time = some (text 1);
  r_repeats = text 2 ∷ [];
}

abbrev a_key : Proto.Key
a_key = record { k_keydata = some (text 0); k_keytype = some (text 1) }

abbrev a_attribute : Proto.Attribute
a_attribute = record { a_att_field = some (text 0); a_att_value = some (text 1) }

abbrev a_media : Proto.Media
a_media = record {
  m_media = some (text 0);
  m_port = some (text 1);
  m_number_of_port = some (text 2);
  m_proto = some (text 3);
  i_info = some (text 4);
  m_payloads = text 5 ∷ [];
  c_connections = a_connection ∷ [];
  b_bandwidths = a_bandwidth ∷ [];
  a_attributes = a_attribute ∷ [];
  k_key = some a_key;
}

abbrev a_sdp : Proto.Sdp
a_sdp = record {
  v_version = some (text 0);
  o_username = some (text 1);
  o_sess_id = some (text 2);
  o_sess_version = some (text 3);
  o_nettype = some (text 4);
  o_addrtype = some (text 5);
  o_addr = some (text 6);
  s_name = some (text 7);
  i_info = some (text 8);
  u_uri = some (text 9);
  z_adjustments = some (text 10);
  e_emails = text 11 ∷ [];
  p_phones = text 12 ∷ [];
  b_bandwidths = a_bandwidth ∷ [];
  t_descrs = a_time ∷ [];
  a_attributes = a_attribute ∷ [];
  m_medias = a_media ∷ [];
  c_connection = some a_connection;
  k_key = some a_key;
}

a_authorization-PlainAuthorization : PlainAuthorization a_authorization
a_authorization-PlainAuthorization = record {
  auth_type = text-IsPlain 0;
  username = text-IsPlain 1;
  realm = text-IsPlain 2;
  nonce = text-IsPlain 3;
  uri = text-IsPlain 4;
  response = text-IsPlain 5;
  digest = text-IsPlain 6;
  algorithm = text-IsPlain 7;
  cnonce = text-IsPlain 8;
  opaque = text-IsPlain 9;
  message_qop = text-IsPlain 10;
  nonce_count = text-IsPlain 11;
  auth_param = text-IsPlain 12;
}

a_authenticate-PlainAuthenticate : PlainAuthenticate a_authenticate
a_authenticate-PlainAuthenticate = record {
  auth_type = text-IsPlain 0;
  realm = text-IsPlain 1;
  domain = text-IsPlain 2;
  nonce = text-IsPlain 3;
  opaque = text-IsPlain 4;
  stale = text-IsPlain 5;
  algorithm = text-IsPlain 6;
  qop_options = text-IsPlain 7;
  auth_param = text-IsPlain 8;
}

a_authentication-PlainAuthentication : PlainAuthentication a_authentication
a_authentication-PlainAuthentication = record {
  nextnonce = text-IsPlain 0;
  qop_options = text-IsPlain 1;
  rspauth = text-IsPlain 2;
  cnonce = text-IsPlain 3;
  nonce_count = text-IsPlain 4;
}

a_head-PlainHead : PlainHead a_head
a_head-PlainHead = record {
  from = text-IsPlain 0;
  to = text-IsPlain 0;
  allow = (text-IsPlain 13, tt);
  contact = (text-IsPlain 0, tt);
  proxy_authenticate = (a_authenticate-PlainAuthenticate, tt);
  proxy_authentication = (a_authentication-PlainAuthentication, tt);
  proxy_authorization = (a_authorization-PlainAuthorization, tt);
  authenticate = (a_authenticate-PlainAuthenticate, tt);
  authentication = (a_authentication-PlainAuthentication, tt);
  authorization = (a_authorization-PlainAuthorization, tt);
  record_route = (text-IsPlain 0, tt);
  route = (text-IsPlain 0, tt);
}

uri_round_example : uri_proto (uri_unproto a_uri) [] ≡ (some a_uri, [])
uri_round_example = uri_round a_uri

content_type_round_example :
    content_type_proto (content_type_unproto a_content_type) [] ≡ (some a_content_type, [])
content_type_round_example = content_type_round a_content_type

via_round_example : via_proto (via_unproto a_via) [] ≡ (some a_via, [])
via_round_example = via_round a_via

authenticate_round_example :
    authenticate_proto quoting (authenticate_unproto quoting a_authenticate) []
    ≡ (some a_authenticate, [])
authenticate_round_example =
    authenticate_round quoting quoting_laws a_authenticate a_authenticate-PlainAuthenticate

authentication_round_example :
    authentication_proto quoting (authentication_unproto quoting a_authentication) []
    ≡ (some a_authentication, [])
authentication_round_example =
    authentication_round quoting quoting_laws a_authentication a_authentication-PlainAuthentication

head_round_example :
    head_proto quoting (head_unproto quoting empty_message a_head full_bitset) []
    ≡ (some a_head, [])
head_round_example = head_round quoting quoting_laws a_head a_head-PlainHead

sdp_round_example : sdp_proto (sdp_unproto a_sdp) [] ≡ (some a_sdp, [])
sdp_round_example = sdp_round a_sdp

-- The eighth allocation fails: the uri itself and its six texts, and then the array of the headers.
abbrev after_seven : Sched
after_seven = true ∷ true ∷ true ∷ true ∷ true ∷ true ∷ true ∷ false ∷ []

uri_proto_null : (uri_proto (uri_unproto a_uri) after_seven).0 ≡ none
unfolding uri_proto uri_unproto malloc dup_or_break array_or_break
uri_proto_null = refl

-- The tenth fails: the copy of the first header's name, after the uri and its texts, the array and
-- the header itself. The uri is answered, without that name.
abbrev after_nine : Sched
after_nine = true ∷ true ∷ true ∷ true ∷ true ∷ true ∷ true ∷ true ∷ true ∷ false ∷ []

uri_proto_nameless :
    (uri_proto (uri_unproto a_uri) after_nine).0
    ≡ some (record a_uri { url_headers = record a_pair { name = none } ∷ [] })
unfolding uri_proto uri_unproto malloc dup dup_or_break array_or_break
uri_proto_nameless = refl

uri_proto-UriCopied_example :
    Post
      (Fails after_nine)
      (UriCopied (uri_unproto a_uri))
      (uri_proto (uri_unproto a_uri) after_nine)
uri_proto-UriCopied_example = uri_proto-UriCopied (uri_unproto a_uri) after_nine

no_such_code : sip_reason_by_code 299 ≡ "Unspecified"
unfolding sip_reason_by_code
no_such_code = refl
