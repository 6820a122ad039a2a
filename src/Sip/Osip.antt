-- ===== src/Sip/Osip.antt =====
-- The fields that lib/proto/sip/sip.c reads and writes in the structs of osipparser2, a library
-- outside the repository: `osip_call_id_t` and so on. A text is a pointer that may be null.
use sipecho.Common.{Option, List}
use sipecho.Sip.Alloc.{Text}

pub record CallId : Type 0 where
  pub number : Option Text
  pub host : Option Text

pub record Cseq : Type 0 where
  pub number : Option Text
  pub method : Option Text

pub record Param : Type 0 where
  pub gname : Option Text
  pub gvalue : Option Text

pub record Uri : Type 0 where
  pub scheme : Option Text
  pub username : Option Text
  pub password : Option Text
  pub host : Option Text
  pub port : Option Text
  pub url_params : List Param
  pub url_headers : List Param
  pub string : Option Text

pub record Address : Type 0 where
  pub displayname : Option Text
  pub url : Option Uri
  pub gen_params : List Param

pub record ContentType : Type 0 where
  pub type : Option Text
  pub subtype : Option Text
  pub gen_params : List Param

pub record Encoding : Type 0 where
  pub element : Option Text
  pub gen_params : List Param

pub record Authorization : Type 0 where
  pub auth_type : Option Text
  pub username : Option Text
  pub realm : Option Text
  pub nonce : Option Text
  pub uri : Option Text
  pub response : Option Text
  pub digest : Option Text
  pub algorithm : Option Text
  pub cnonce : Option Text
  pub opaque : Option Text
  pub message_qop : Option Text
  pub nonce_count : Option Text
  pub auth_param : Option Text

pub record WwwAuthenticate : Type 0 where
  pub auth_type : Option Text
  pub realm : Option Text
  pub domain : Option Text
  pub nonce : Option Text
  pub opaque : Option Text
  pub stale : Option Text
  pub algorithm : Option Text
  pub qop_options : Option Text
  pub auth_param : Option Text

pub record AuthenticationInfo : Type 0 where
  pub nextnonce : Option Text
  pub qop_options : Option Text
  pub rspauth : Option Text
  pub cnonce : Option Text
  pub nonce_count : Option Text

pub record Via : Type 0 where
  pub version : Option Text
  pub protocol : Option Text
  pub host : Option Text
  pub port : Option Text
  pub comment : Option Text
  pub via_params : List Param

pub record Allow : Type 0 where
  pub value : Option Text

-- The header fields of `osip_message_t`.
pub record Message : Type 0 where
  pub sip_version : Option Text
  pub call_id : Option CallId
  pub cseq : Option Cseq
  pub from : Option Address
  pub to : Option Address
  pub content_type : Option ContentType
  pub accepts : List ContentType
  pub accept_encodings : List Encoding
  pub accept_languages : List Encoding
  pub alert_infos : List Encoding
  pub call_infos : List Encoding
  pub error_infos : List Encoding
  pub content_encodings : List Encoding
  pub allows : List Allow
  pub contacts : List Address
  pub proxy_authenticates : List WwwAuthenticate
  pub proxy_authentication_infos : List AuthenticationInfo
  pub proxy_authorizations : List Authorization
  pub www_authenticates : List WwwAuthenticate
  pub authentication_infos : List AuthenticationInfo
  pub authorizations : List Authorization
  pub record_routes : List Address
  pub routes : List Address
  pub vias : List Via
  pub headers : List Param

-- The structs of a session description, `sdp_message_t` and its parts.
pub record Connection : Type 0 where
  pub c_addr : Option Text
  pub c_addrtype : Option Text
  pub c_nettype : Option Text
  pub c_addr_multicast_int : Option Text
  pub c_addr_multicast_ttl : Option Text

pub record Bandwidth : Type 0 where
  pub b_bandwidth : Option Text
  pub b_bwtype : Option Text

pub record Time : Type 0 where
  pub t_start_time : Option Text
  pub t_stop_time : Option Text
  pub r_repeats : List Text

pub record Key : Type 0 where
  pub k_keydata : Option Text
  pub k_keytype : Option Text

pub record Attribute : Type 0 where
  pub a_att_field : Option Text
  pub a_att_value : Option Text

pub record Media : Type 0 where
  pub m_media : Option Text
  pub m_port : Option Text
  pub m_number_of_port : Option Text
  pub m_proto : Option Text
  pub i_info : Option Text
  pub m_payloads : List Text
  pub c_connections : List Connection
  pub b_bandwidths : List Bandwidth
  pub a_attributes : List Attribute
  pub k_key : Option Key

pub record Sdp : Type 0 where
  pub v_version : Option Text
  pub o_username : Option Text
  pub o_sess_id : Option Text
  pub o_sess_version : Option Text
  pub o_nettype : Option Text
  pub o_addrtype : Option Text
  pub o_addr : Option Text
  pub s_name : Option Text
  pub i_info : Option Text
  pub u_uri : Option Text
  pub z_adjustments : Option Text
  pub e_emails : List Text
  pub p_phones : List Text
  pub b_bandwidths : List Bandwidth
  pub t_descrs : List Time
  pub a_attributes : List Attribute
  pub m_medias : List Media
  pub c_connection : Option Connection
  pub k_key : Option Key
