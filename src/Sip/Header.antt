-- ===== src/Sip/Header.antt =====
-- lib/proto/sip/sip.c: the conversions of single header values. `…_proto` makes the protocol buffer
-- of a struct of the parser; an allocation may fail, and the answer is then null or has null
-- fields, as the source has it. `…_unproto` goes back; it does not survive a failed allocation, so
-- it is modelled with enough memory.
pub mod RoundTrip
pub mod Exact
use mathlib.Core.Option
use sipecho.Common.{Option, List, [], map}
use sipecho.Sip.Alloc.{
  Text, M, ◌>>=◌, ◌>>◌, pure, malloc, dup_by, dup, dup_or_break, null_or, array_or_break,
}
use sipecho.Sip.Osip
use sipecho.Sip.Proto

-- `osip_strdup_without_quote` and `osip_enquote`, functions of the parser library on texts.
pub record Quoting : Type 0 where
  pub unquote : Text → Text
  pub enquote : Text → Text

unfoldable pub call_id_new : Option Text → Option Text → M Proto.CallId
call_id_new number host = do
  malloc
  p_host ← dup host
  p_number ← dup number
  pure (record { number = p_number; host = p_host })

unfoldable pub call_id_proto : Osip.CallId → M Proto.CallId
unfolding call_id_new
call_id_proto q = call_id_new q.number q.host

unfoldable pub call_id_unproto : Proto.CallId → Osip.CallId
call_id_unproto p = record { host = p.host; number = p.number }

unfoldable pub cseq_new : Option Text → Option Text → M Proto.Cseq
cseq_new number method = do
  malloc
  p_method ← dup method
  p_number ← dup number
  pure (record { method = p_method; number = p_number })

unfoldable pub cseq_proto : Osip.Cseq → M Proto.Cseq
unfolding cseq_new
cseq_proto q = cseq_new q.number q.method

unfoldable pub cseq_unproto : Proto.Cseq → Osip.Cseq
cseq_unproto p = record { method = p.method; number = p.number }

unfoldable pub pair_new : Option Text → Option Text → M Proto.Pair
pair_new name value = do
  malloc
  p_name ← dup name
  p_value ← dup value
  pure (record { name = p_name; value = p_value })

unfoldable pub pair_proto : Osip.Param → M Proto.Pair
unfolding pair_new
pair_proto q = pair_new q.gname q.gvalue

unfoldable pub pair_unproto : Proto.Pair → Osip.Param
pair_unproto p = record { gname = p.name; gvalue = p.value }

unfoldable pub uri_new :
    Option Text → Option Text → Option Text → Option Text → Option Text → Option Text → M Proto.Uri
uri_new scheme username password host port other = do
  malloc
  p_scheme ← dup_or_break scheme
  p_username ← dup_or_break username
  p_password ← dup_or_break password
  p_host ← dup_or_break host
  p_port ← dup_or_break port
  p_other ← dup_or_break other
  pure (record {
    scheme = p_scheme;
    username = p_username;
    password = p_password;
    host = p_host;
    port = p_port;
    url_params = [];
    url_headers = [];
    other = p_other;
  })

unfoldable pub uri_proto : Osip.Uri → M Proto.Uri
unfolding uri_new pair_proto
uri_proto q = do
  p ← uri_new q.scheme q.username q.password q.host q.port q.string
  headers ← array_or_break pair_proto q.url_headers
  params ← array_or_break pair_proto q.url_params
  pure (record p { url_headers = headers; url_params = params })

unfoldable pub uri_unproto : Proto.Uri → Osip.Uri
unfolding pair_unproto
uri_unproto p = record {
  host = p.host;
  password = p.password;
  port = p.port;
  scheme = p.scheme;
  string = p.other;
  username = p.username;
  url_headers = map pair_unproto p.url_headers;
  url_params = map pair_unproto p.url_params;
}

unfoldable pub content_type_proto : Osip.ContentType → M Proto.ContentType
unfolding pair_proto
content_type_proto q = do
  malloc
  p_type ← dup_or_break q.type
  p_subtype ← dup_or_break q.subtype
  params ← array_or_break pair_proto q.gen_params
  pure (record { type = p_type; subtype = p_subtype; gen_params = params })

unfoldable pub content_type_unproto : Proto.ContentType → Osip.ContentType
unfolding pair_unproto
content_type_unproto p = record {
  type = p.type;
  subtype = p.subtype;
  gen_params = map pair_unproto p.gen_params;
}

unfoldable pub encode_proto : Osip.Encoding → M Proto.Encode
unfolding pair_proto
encode_proto q = do
  malloc
  p_element ← dup q.element
  params ← array_or_break pair_proto q.gen_params
  pure (record { element = p_element; gen_params = params })

unfoldable pub encode_unproto : Proto.Encode → Osip.Encoding
unfolding pair_unproto
encode_unproto p = record { element = p.element; gen_params = map pair_unproto p.gen_params }

unfoldable pub via_proto : Osip.Via → M Proto.Via
unfolding pair_proto
via_proto q = do
  malloc
  p_host ← dup q.host
  p_port ← dup q.port
  p_protocol ← dup q.protocol
  p_version ← dup q.version
  p_comment ← dup q.comment
  params ← array_or_break pair_proto q.via_params
  pure (record {
    version = p_version;
    protocol = p_protocol;
    host = p_host;
    port = p_port;
    comment = p_comment;
    via_params = params;
  })

unfoldable pub via_unproto : Proto.Via → Osip.Via
unfolding pair_unproto
via_unproto p = record {
  comment = p.comment;
  host = p.host;
  port = p.port;
  protocol = p.protocol;
  version = p.version;
  via_params = map pair_unproto p.via_params;
}

module _ (q : Quoting) where
  -- `strdup_null_without_quote` and `strdup_null_with_quote`
  abbrev pub dup_unquoted : Option Text → M (Option Text)
  dup_unquoted = dup_by q.unquote

  abbrev pub quoted : Option Text → Option Text
  quoted = Option.map q.enquote

  unfoldable pub address_proto : Osip.Address → M Proto.Address
  unfolding uri_proto pair_proto
  address_proto a = do
    malloc
    p_displayname ← dup_unquoted a.displayname
    p_url ← null_or uri_proto a.url
    params ← array_or_break pair_proto a.gen_params
    pure (record { displayname = p_displayname; url = p_url; gen_params = params })

  unfoldable pub address_unproto : Proto.Address → Osip.Address
  unfolding uri_unproto pair_unproto
  address_unproto p = record {
    displayname = quoted p.displayname;
    url = Option.map uri_unproto p.url;
    gen_params = map pair_unproto p.gen_params;
  }

  unfoldable pub authorization_proto : Osip.Authorization → M Proto.Authorization
  authorization_proto a = do
    malloc
    p_algorithm ← dup_unquoted a.algorithm
    p_auth_param ← dup_unquoted a.auth_param
    p_auth_type ← dup_unquoted a.auth_type
    p_cnonce ← dup_unquoted a.cnonce
    p_digest ← dup_unquoted a.digest
    p_message_qop ← dup_unquoted a.message_qop
    p_nonce ← dup_unquoted a.nonce
    p_nonce_count ← dup_unquoted a.nonce_count
    p_opaque ← dup_unquoted a.opaque
    p_realm ← dup_unquoted a.realm
    p_response ← dup_unquoted a.response
    p_uri ← dup_unquoted a.uri
    p_username ← dup_unquoted a.username
    pure (record {
      algorithm = p_algorithm;
      auth_param = p_auth_param;
      auth_type = p_auth_type;
      cnonce = p_cnonce;
      digest = p_digest;
      message_qop = p_message_qop;
      nonce = p_nonce;
      nonce_count = p_nonce_count;
      opaque = p_opaque;
      realm = p_realm;
      response = p_response;
      uri = p_uri;
      username = p_username;
    })

  unfoldable pub authorization_unproto : Proto.Authorization → Osip.Authorization
  authorization_unproto p = record {
    algorithm = p.algorithm;
    auth_param = p.auth_param;
    auth_type = p.auth_type;
    cnonce = quoted p.cnonce;
    digest = p.digest;
    message_qop = quoted p.message_qop;
    nonce = quoted p.nonce;
    nonce_count = p.nonce_count;
    opaque = quoted p.opaque;
    realm = quoted p.realm;
    response = quoted p.response;
    uri = quoted p.uri;
    username = quoted p.username;
  }

  unfoldable pub authenticate_proto : Osip.WwwAuthenticate → M Proto.Authenticate
  authenticate_proto a = do
    malloc
    p_algorithm ← dup_unquoted a.algorithm
    p_auth_param ← dup_unquoted a.auth_param
    p_auth_type ← dup_unquoted a.auth_type
    p_domain ← dup_unquoted a.domain
    p_nonce ← dup_unquoted a.nonce
    p_opaque ← dup_unquoted a.opaque
    p_qop_options ← dup_unquoted a.qop_options
    p_realm ← dup_unquoted a.realm
    p_stale ← dup_unquoted a.stale
    pure (record {
      algorithm = p_algorithm;
      auth_param = p_auth_param;
      auth_type = p_auth_type;
      domain = p_domain;
      nonce = p_nonce;
      opaque = p_opaque;
      qop_options = p_qop_options;
      realm = p_realm;
      stale = p_stale;
    })

  unfoldable pub authenticate_unproto : Proto.Authenticate → Osip.WwwAuthenticate
  authenticate_unproto p = record {
    algorithm = p.algorithm;
    auth_param = p.auth_param;
    auth_type = p.auth_type;
    domain = quoted p.domain;
    nonce = quoted p.nonce;
    opaque = quoted p.opaque;
    qop_options = quoted p.qop_options;
    realm = quoted p.realm;
    stale = p.stale;
  }

  unfoldable pub authentication_proto : Osip.AuthenticationInfo → M Proto.Authentication
  authentication_proto a = do
    malloc
    p_cnonce ← dup_unquoted a.cnonce
    p_nextnonce ← dup_unquoted a.nextnonce
    p_nonce_count ← dup_unquoted a.nonce_count
    p_qop_options ← dup_unquoted a.qop_options
    p_rspauth ← dup_unquoted a.rspauth
    pure (record {
      cnonce = p_cnonce;
      nextnonce = p_nextnonce;
      nonce_count = p_nonce_count;
      qop_options = p_qop_options;
      rspauth = p_rspauth;
    })

  unfoldable pub authentication_unproto : Proto.Authentication → Osip.AuthenticationInfo
  authentication_unproto p = record {
    cnonce = quoted p.cnonce;
    nextnonce = quoted p.nextnonce;
    nonce_count = p.nonce_count;
    qop_options = quoted p.qop_options;
    rspauth = quoted p.rspauth;
  }
