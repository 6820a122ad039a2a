-- ===== src/Sip/Sdp.antt =====
-- lib/proto/sip/sip.c: the conversions of session descriptions. Here the answers of `array__proto`
-- are ignored, and what was converted of an array stays.
pub mod RoundTrip
use mathlib.Core.Option
use sipecho.Common.{Option, List, [], none, map}
use sipecho.Sip.Alloc.{Text, M, ◌>>=◌, ◌>>◌, pure, malloc, dup, null_or, array_any}
use sipecho.Sip.Osip
use sipecho.Sip.Proto

-- `sip__type__char__proto`, which is `sip__type__char__unproto` too, at a text.
unfoldable pub char_proto : Text → M Text
unfolding malloc
char_proto t = malloc >> pure t

abbrev pub char_unproto : Text → Text
char_unproto t = t

unfoldable pub connection_new :
    Option Text → Option Text → Option Text → Option Text → Option Text → M Proto.Connection
connection_new c_addr c_addrtype c_nettype c_addr_multicast_int c_addr_multicast_ttl = do
  malloc
  p_c_addr ← dup c_addr
  p_c_addr_multicast_int ← dup c_addr_multicast_int
  p_c_addr_multicast_ttl ← dup c_addr_multicast_ttl
  p_c_addrtype ← dup c_addrtype
  p_c_nettype ← dup c_nettype
  pure (record {
    c_addr = p_c_addr;
    c_addrtype = p_c_addrtype;
    c_nettype = p_c_nettype;
    c_addr_multicast_int = p_c_addr_multicast_int;
    c_addr_multicast_ttl = p_c_addr_multicast_ttl;
  })

unfoldable pub connection_proto : Osip.Connection → M Proto.Connection
unfolding connection_new
connection_proto q =
    connection_new q.c_addr q.c_addrtype q.c_nettype q.c_addr_multicast_int q.c_addr_multicast_ttl

unfoldable pub connection_unproto : Proto.Connection → Osip.Connection
connection_unproto p = record {
  c_addr = p.c_addr;
  c_addr_multicast_int = p.c_addr_multicast_int;
  c_addr_multicast_ttl = p.c_addr_multicast_ttl;
  c_addrtype = p.c_addrtype;
  c_nettype = p.c_nettype;
}

unfoldable pub bandwidth_new : Option Text → Option Text → M Proto.Bandwidth
bandwidth_new b_bandwidth b_bwtype = do
  malloc
  p_b_bandwidth ← dup b_bandwidth
  p_b_bwtype ← dup b_bwtype
  pure (record { b_bandwidth = p_b_bandwidth; b_bwtype = p_b_bwtype })

unfoldable pub bandwidth_proto : Osip.Bandwidth → M Proto.Bandwidth
unfolding bandwidth_new
bandwidth_proto q = bandwidth_new q.b_bandwidth q.b_bwtype

unfoldable pub bandwidth_unproto : Proto.Bandwidth → Osip.Bandwidth
bandwidth_unproto p = record { b_bwtype = p.b_bwtype; b_bandwidth = p.b_bandwidth }

unfoldable pub time_new : Option Text → Option Text → M Proto.Time
time_new t_start_time t_stop_time = do
  malloc
  p_t_start_time ← dup t_start_time
  p_t_stop_time ← dup t_stop_time
  pure (record { t_start_time = p_t_start_time; t_stop_time = p_t_stop_time; r_repeats = [] })

unfoldable pub time_proto : Osip.Time → M Proto.Time
unfolding time_new char_proto
time_proto q = do
  p ← time_new q.t_start_time q.t_stop_time
  p_r_repeats ← array_any char_proto q.r_repeats
  pure (record p { r_repeats = p_r_repeats })

unfoldable pub time_unproto : Proto.Time → Osip.Time
time_unproto p = record {
  t_start_time = p.t_start_time;
  t_stop_time = p.t_stop_time;
  r_repeats = map char_unproto p.r_repeats;
}

unfoldable pub key_new : Option Text → Option Text → M Proto.Key
key_new k_keydata k_keytype = do
  malloc
  p_k_keydata ← dup k_keydata
  p_k_keytype ← dup k_keytype
  pure (record { k_keydata = p_k_keydata; k_keytype = p_k_keytype })

unfoldable pub key_proto : Osip.Key → M Proto.Key
unfolding key_new
key_proto q = key_new q.k_keydata q.k_keytype

unfoldable pub key_unproto : Proto.Key → Osip.Key
key_unproto p = record { k_keydata = p.k_keydata; k_keytype = p.k_keytype }

unfoldable pub attribute_new : Option Text → Option Text → M Proto.Attribute
attribute_new a_att_field a_att_value = do
  malloc
  p_a_att_field ← dup a_att_field
  p_a_att_value ← dup a_att_value
  pure (record { a_att_field = p_a_att_field; a_att_value = p_a_att_value })

unfoldable pub attribute_proto : Osip.Attribute → M Proto.Attribute
unfolding attribute_new
attribute_proto q = attribute_new q.a_att_field q.a_att_value

unfoldable pub attribute_unproto : Proto.Attribute → Osip.Attribute
attribute_unproto p = record { a_att_field = p.a_att_field; a_att_value = p.a_att_value }

unfoldable pub media_new :
    Option Text → Option Text → Option Text → Option Text → Option Text → M Proto.Media
media_new m_media m_port m_number_of_port m_proto i_info = do
  malloc
  p_m_media ← dup m_media
  p_m_port ← dup m_port
  p_m_number_of_port ← dup m_number_of_port
  p_m_proto ← dup m_proto
  p_i_info ← dup i_info
  pure (record {
    m_media = p_m_media;
    m_port = p_m_port;
    m_number_of_port = p_m_number_of_port;
    m_proto = p_m_proto;
    i_info = p_i_info;
    m_payloads = [];
    c_connections = [];
    b_bandwidths = [];
    a_attributes = [];
    k_key = none;
  })

unfoldable pub media_proto : Osip.Media → M Proto.Media
unfolding media_new attribute_proto bandwidth_proto char_proto connection_proto key_proto
media_proto q = do
  p ← media_new q.m_media q.m_port q.m_number_of_port q.m_proto q.i_info
  p_m_payloads ← array_any char_proto q.m_payloads
  p_c_connections ← array_any connection_proto q.c_connections
  p_b_bandwidths ← array_any bandwidth_proto q.b_bandwidths
  p_a_attributes ← array_any attribute_proto q.a_attributes
  p_k_key ← null_or key_proto q.k_key
  pure (record p {
    m_payloads = p_m_payloads;
    c_connections = p_c_connections;
    b_bandwidths = p_b_bandwidths;
    a_attributes = p_a_attributes;
    k_key = p_k_key;
  })

unfoldable pub media_unproto : Proto.Media → Osip.Media
unfolding attribute_unproto bandwidth_unproto connection_unproto key_unproto
media_unproto p = record {
  m_media = p.m_media;
  m_port = p.m_port;
  m_number_of_port = p.m_number_of_port;
  m_proto = p.m_proto;
  i_info = p.i_info;
  m_payloads = map char_unproto p.m_payloads;
  c_connections = map connection_unproto p.c_connections;
  b_bandwidths = map bandwidth_unproto p.b_bandwidths;
  a_attributes = map attribute_unproto p.a_attributes;
  k_key = Option.map key_unproto p.k_key;
}

unfoldable pub sdp_new :
    Option Text
    → Option Text
    → Option Text
    → Option Text
    → Option Text
    → Option Text
    → Option Text
    → Option Text
    → Option Text
    → Option Text
    → Option Text
    → M Proto.Sdp
sdp_new v_version o_username o_sess_id o_sess_version o_nettype o_addrtype o_addr s_name i_info
      u_uri z_adjustments =
    do
      malloc
      p_v_version ← dup v_version
      p_o_username ← dup o_username
      p_o_sess_id ← dup o_sess_id
      p_o_sess_version ← dup o_sess_version
      p_o_nettype ← dup o_nettype
      p_o_addrtype ← dup o_addrtype
      p_o_addr ← dup o_addr
      p_s_name ← dup s_name
      p_i_info ← dup i_info
      p_u_uri ← dup u_uri
      p_z_adjustments ← dup z_adjustments
      pure (record {
        v_version = p_v_version;
        o_username = p_o_username;
        o_sess_id = p_o_sess_id;
        o_sess_version = p_o_sess_version;
        o_nettype = p_o_nettype;
        o_addrtype = p_o_addrtype;
        o_addr = p_o_addr;
        s_name = p_s_name;
        i_info = p_i_info;
        u_uri = p_u_uri;
        z_adjustments = p_z_adjustments;
        e_emails = [];
        p_phones = [];
        b_bandwidths = [];
        t_descrs = [];
        a_attributes = [];
        m_medias = [];
        c_connection = none;
        k_key = none;
      })

unfoldable pub sdp_proto : Osip.Sdp → M Proto.Sdp
unfolding sdp_new attribute_proto bandwidth_proto char_proto connection_proto key_proto media_proto
    time_proto
sdp_proto q = do
  p ←
      sdp_new q.v_version q.o_username q.o_sess_id q.o_sess_version q.o_nettype q.o_addrtype
        q.o_addr q.s_name q.i_info q.u_uri q.z_adjustments
  p_e_emails ← array_any char_proto q.e_emails
  p_p_phones ← array_any char_proto q.p_phones
  p_b_bandwidths ← array_any bandwidth_proto q.b_bandwidths
  p_t_descrs ← array_any time_proto q.t_descrs
  p_a_attributes ← array_any attribute_proto q.a_attributes
  p_m_medias ← array_any media_proto q.m_medias
  p_c_connection ← null_or connection_proto q.c_connection
  p_k_key ← null_or key_proto q.k_key
  pure (record p {
    e_emails = p_e_emails;
    p_phones = p_p_phones;
    b_bandwidths = p_b_bandwidths;
    t_descrs = p_t_descrs;
    a_attributes = p_a_attributes;
    m_medias = p_m_medias;
    c_connection = p_c_connection;
    k_key = p_k_key;
  })

unfoldable pub sdp_unproto : Proto.Sdp → Osip.Sdp
unfolding attribute_unproto bandwidth_unproto connection_unproto key_unproto media_unproto
    time_unproto
sdp_unproto p = record {
  v_version = p.v_version;
  o_username = p.o_username;
  o_sess_id = p.o_sess_id;
  o_sess_version = p.o_sess_version;
  o_nettype = p.o_nettype;
  o_addrtype = p.o_addrtype;
  o_addr = p.o_addr;
  s_name = p.s_name;
  i_info = p.i_info;
  u_uri = p.u_uri;
  z_adjustments = p.z_adjustments;
  c_connection = Option.map connection_unproto p.c_connection;
  k_key = Option.map key_unproto p.k_key;
  e_emails = map char_unproto p.e_emails;
  p_phones = map char_unproto p.p_phones;
  b_bandwidths = map bandwidth_unproto p.b_bandwidths;
  t_descrs = map time_unproto p.t_descrs;
  a_attributes = map attribute_unproto p.a_attributes;
  m_medias = map media_unproto p.m_medias;
}
