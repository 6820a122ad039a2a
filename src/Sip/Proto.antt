-- ===== src/Sip/Proto.antt =====
-- lib/proto/sip/type.proto: the messages that the conversions of lib/proto/sip/sip.c fill, as the
-- structs generated from them. A text is a pointer that may be null.
use sipecho.Common.{Option, List}
use sipecho.Sip.Alloc.{Text}

pub record CallId : Type 0 where
  pub number : Option Text
  pub host : Option Text

pub record Cseq : Type 0 where
  pub method : Option Text
  pub number : Option Text

pub record Pair : Type 0 where
  pub name : Option Text
  pub value : Option Text

pub record Uri : Type 0 where
  pub scheme : Option Text
  pub username : Option Text
  pub password : Option Text
  pub host : Option Text
  pub port : Option Text
  pub url_params : List Pair
  pub url_headers : List Pair
  pub other : Option Text

pub record Address : Type 0 where
  pub displayname : Option Text
  pub url : Option Uri
  pub gen_params : List Pair

pub record ContentType : Type 0 where
  pub type : Option Text
  pub subtype : Option Text
  pub gen_params : List Pair

pub record Encode : Type 0 where
  pub element : Option Text
  pub gen_params : List Pair

pub record Authorization : Type 0 where
  pub auth_type : Option Text
  pub username : Option Text
  pub realm : Option Text
  pub nonce : Option Text
  pub uri : Option Text
  pub response : Option Text
  pub digest : Option Text
  pub algorithm : Option Text
  pub cnonce : Option Text
  pub opaque : Option Text
  pub message_qop : Option Text
  pub nonce_count : Option Text
  pub auth_param : Option Text

pub record Authenticate : Type 0 where
  pub auth_type : Option Text
  pub realm : Option Text
  pub domain : Option Text
  pub nonce : Option Text
  pub opaque : Option Text
  pub stale : Option Text
  pub algorithm : Option Text
  pub qop_options : Option Text
  pub auth_param : Option Text

pub record Authentication : Type 0 where
  pub nextnonce : Option Text
  pub qop_options : Option Text
  pub rspauth : Option Text
  pub cnonce : Option Text
  pub nonce_count : Option Text

pub record Via : Type 0 where
  pub version : Option Text
  pub protocol : Option Text
  pub host : Option Text
  pub port : Option Text
  pub comment : Option Text
  pub via_params : List Pair

-- The message `head` of lib/proto/sip/message.proto.
pub record Head : Type 0 where
  pub version : Option Text
  pub call_id : Option CallId
  pub cseq : Option Cseq
  pub from : Option Address
  pub to : Option Address
  pub content_type : Option ContentType
  pub accept : List ContentType
  pub accept_encoding : List Encode
  pub accept_language : List Encode
  pub alert_info : List Encode
  pub call_info : List Encode
  pub error_info : List Encode
  pub content_encoding : List Encode
  pub allow : List Text
  pub contact : List Address
  pub proxy_authenticate : List Authenticate
  pub proxy_authentication : List Authentication
  pub proxy_authorization : List Authorization
  pub authenticate : List Authenticate
  pub authentication : List Authentication
  pub authorization : List Authorization
  pub record_route : List Address
  pub route : List Address
  pub via : List Via
  pub other : List Pair

-- The message `sdp` and its parts.
pub record Connection : Type 0 where
  pub c_addr : Option Text
  pub c_addrtype : Option Text
  pub c_nettype : Option Text
  pub c_addr_multicast_int : Option Text
  pub c_addr_multicast_ttl : Option Text

pub record Bandwidth : Type 0 where
  pub b_bandwidth : Option Text
  pub b_bwtype : Option Text

pub record Time : Type 0 where
  pub t_start_time : Option Text
  pub t_stop_time : Option Text
  pub r_repeats : List Text

pub record Key : Type 0 where
  pub k_keydata : Option Text
  pub k_keytype : Option Text

pub record Attribute : Type 0 where
  pub a_att_field : Option Text
  pub a_att_value : Option Text

pub record Media : Type 0 where
  pub m_media : Option Text
  pub m_port : Option Text
  pub m_number_of_port : Option Text
  pub m_proto : Option Text
  pub i_info : Option Text
  pub m_payloads : List Text
  pub c_connections : List Connection
  pub b_bandwidths : List Bandwidth
  pub a_attributes : List Attribute
  pub k_key : Option Key

pub record Sdp : Type 0 where
  pub v_version : Option Text
  pub o_username : Option Text
  pub o_sess_id : Option Text
  pub o_sess_version : Option Text
  pub o_nettype : Option Text
  pub o_addrtype : Option Text
  pub o_addr : Option Text
  pub s_name : Option Text
  pub i_info : Option Text
  pub u_uri : Option Text
  pub z_adjustments : Option Text
  pub e_emails : List Text
  pub p_phones : List Text
  pub b_bandwidths : List Bandwidth
  pub t_descrs : List Time
  pub a_attributes : List Attribute
  pub m_medias : List Media
  pub c_connection : Option Connection
  pub k_key : Option Key
