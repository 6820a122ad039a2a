-- ===== src/Sip/Header/RoundTrip.antt =====
-- The conversions of header values there and back: what `…_unproto` makes of a protocol buffer, is
-- converted to that protocol buffer again, while no allocation fails.
use mathlib.Core.Option
use sipecho.Common.{ℕ, Option, some, none, List, [], ◌∷◌, map, ◌≡◌, ◌≢◌}
use sipecho.Sip.Alloc.{Text, null_or, array_or_break, dup_by}
use sipecho.Sip.Alloc.Ample.{
  All, Each, malloc_ample, dup_ample, dup_or_break_ample, dup_by_ample, null_or_ample,
  array_or_break_ample,
}
use sipecho.Sip.Proto
use sipecho.Sip.Header.{
  Quoting, call_id_proto, call_id_unproto, cseq_proto, cseq_unproto, pair_proto, pair_unproto,
  uri_proto, uri_unproto, content_type_proto, content_type_unproto, encode_proto, encode_unproto,
  via_proto, via_unproto, address_proto, address_unproto, authorization_proto,
  authorization_unproto, authenticate_proto, authenticate_unproto, authentication_proto,
  authentication_unproto,
}

-- No quote, backslash, carriage return or line feed.
abbrev pub IsPlain : Text → Type 0
IsPlain t = All (λ (c : ℕ). (c ≢ 34) × (c ≢ 92) × (c ≢ 13) × (c ≢ 10)) t

-- What the parser library documents of its quoting functions, for plain texts.
pub record QuotingLaws (q : Quoting) : Type 0 where
  pub unquote-enquote : (t : Text) → IsPlain t → q.unquote (q.enquote t) ≡ t
  pub unquote_plain : (t : Text) → IsPlain t → q.unquote t ≡ t

abbrev pub AnyOf : {Y : Type 0} → Y → Type 0
AnyOf y = Unit

pub All-any : {Y : Type 0} (ys : List Y) → All AnyOf ys
All-any [] = tt
All-any (y ∷ ys) = (tt, All-any ys)

ruleset ample = (malloc_ample, dup_ample, dup_or_break_ample)

pub pair_round : (p : Proto.Pair) → pair_proto (pair_unproto p) [] ≡ (some p, [])
unfolding pair_proto pair_unproto
pair_round p = simp ample

pub pairs_round :
    (ps : List Proto.Pair) → array_or_break pair_proto (map pair_unproto ps) [] ≡ (some ps, [])
pairs_round ps =
    array_or_break_ample pair_proto pair_unproto AnyOf (λ p h. pair_round p) ps (All-any ps)

ruleset rounds = (ample, pairs_round)

pub call_id_round : (p : Proto.CallId) → call_id_proto (call_id_unproto p) [] ≡ (some p, [])
unfolding call_id_proto call_id_unproto
call_id_round p = simp ample

pub cseq_round : (p : Proto.Cseq) → cseq_proto (cseq_unproto p) [] ≡ (some p, [])
unfolding cseq_proto cseq_unproto
cseq_round p = simp ample

-- A uri with its parameters and headers, there and back, while no allocation fails.
pub uri_round : (p : Proto.Uri) → uri_proto (uri_unproto p) [] ≡ (some p, [])
unfolding uri_proto uri_unproto
uri_round p = simp rounds

-- A content type with its parameters, there and back, while no allocation fails.
pub content_type_round :
    (p : Proto.ContentType) → content_type_proto (content_type_unproto p) [] ≡ (some p, [])
unfolding content_type_proto content_type_unproto
content_type_round p = simp rounds

pub encode_round : (p : Proto.Encode) → encode_proto (encode_unproto p) [] ≡ (some p, [])
unfolding encode_proto encode_unproto
encode_round p = simp rounds

-- A `Via` value with its parameters, there and back, while no allocation fails.
pub via_round : (p : Proto.Via) → via_proto (via_unproto p) [] ≡ (some p, [])
unfolding via_proto via_unproto
via_round p = simp rounds

pub record PlainAuthorization (p : Proto.Authorization) : Type 0 where
  pub algorithm : Each IsPlain p.algorithm
  pub auth_param : Each IsPlain p.auth_param
  pub auth_type : Each IsPlain p.auth_type
  pub cnonce : Each IsPlain p.cnonce
  pub digest : Each IsPlain p.digest
  pub message_qop : Each IsPlain p.message_qop
  pub nonce : Each IsPlain p.nonce
  pub nonce_count : Each IsPlain p.nonce_count
  pub opaque : Each IsPlain p.opaque
  pub realm : Each IsPlain p.realm
  pub response : Each IsPlain p.response
  pub uri : Each IsPlain p.uri
  pub username : Each IsPlain p.username

pub record PlainAuthenticate (p : Proto.Authenticate) : Type 0 where
  pub algorithm : Each IsPlain p.algorithm
  pub auth_param : Each IsPlain p.auth_param
  pub auth_type : Each IsPlain p.auth_type
  pub domain : Each IsPlain p.domain
  pub nonce : Each IsPlain p.nonce
  pub opaque : Each IsPlain p.opaque
  pub qop_options : Each IsPlain p.qop_options
  pub realm : Each IsPlain p.realm
  pub stale : Each IsPlain p.stale

pub record PlainAuthentication (p : Proto.Authentication) : Type 0 where
  pub cnonce : Each IsPlain p.cnonce
  pub nextnonce : Each IsPlain p.nextnonce
  pub nonce_count : Each IsPlain p.nonce_count
  pub qop_options : Each IsPlain p.qop_options
  pub rspauth : Each IsPlain p.rspauth

module _ (q : Quoting) (laws : QuotingLaws q) where
  quoted_round :
      (t : Option Text)
      → Each IsPlain t
      → dup_by q.unquote (Option.map q.enquote t) [] ≡ (some t, [])
  quoted_round = dup_by_ample q.unquote q.enquote IsPlain laws.unquote-enquote

  plain_round : (t : Option Text) → Each IsPlain t → dup_by q.unquote t [] ≡ (some t, [])
  plain_round none h = dup_by_ample q.unquote (λ t. t) IsPlain laws.unquote_plain none h
  plain_round (some t) h = dup_by_ample q.unquote (λ t. t) IsPlain laws.unquote_plain (some t) h

  urls_round :
      (o : Option Proto.Uri) → null_or uri_proto (Option.map uri_unproto o) [] ≡ (some o, [])
  urls_round none = null_or_ample uri_proto uri_unproto AnyOf (λ p h. uri_round p) none tt
  urls_round (some p) = null_or_ample uri_proto uri_unproto AnyOf (λ p h. uri_round p) (some p) tt

  -- A `From`, `To`, `Contact` or `Route` value with a plain display name, there and back, while no
  -- allocation fails and the quoting functions do what is documented of them.
  pub address_round :
      (p : Proto.Address)
      → Each IsPlain p.displayname
      → address_proto q (address_unproto q p) [] ≡ (some p, [])
  unfolding address_proto address_unproto
  address_round p h = simp (rounds, quoted_round p.displayname h, urls_round p.url)

  -- An `Authorization` value with plain texts, there and back, while no allocation fails
  -- and the quoting functions do what is documented of them.
  pub authorization_round :
      (p : Proto.Authorization)
      → PlainAuthorization p
      → authorization_proto q (authorization_unproto q p) [] ≡ (some p, [])
  unfolding authorization_proto authorization_unproto
  authorization_round p h = simp (
    ample,
    plain_round p.algorithm h.algorithm,
    plain_round p.auth_param h.auth_param,
    plain_round p.auth_type h.auth_type,
    quoted_round p.cnonce h.cnonce,
    plain_round p.digest h.digest,
    quoted_round p.message_qop h.message_qop,
    quoted_round p.nonce h.nonce,
    plain_round p.nonce_count h.nonce_count,
    quoted_round p.opaque h.opaque,
    quoted_round p.realm h.realm,
    quoted_round p.response h.response,
    quoted_round p.uri h.uri,
    quoted_round p.username h.username,
  )

  -- A `WWW-Authenticate` value with plain texts, there and back, while no allocation fails
  -- and the quoting functions do what is documented of them.
  pub authenticate_round :
      (p : Proto.Authenticate)
      → PlainAuthenticate p
      → authenticate_proto q (authenticate_unproto q p) [] ≡ (some p, [])
  unfolding authenticate_proto authenticate_unproto
  authenticate_round p h = simp (
    ample,
    plain_round p.algorithm h.algorithm,
    plain_round p.auth_param h.auth_param,
    plain_round p.auth_type h.auth_type,
    quoted_round p.domain h.domain,
    quoted_round p.nonce h.nonce,
    quoted_round p.opaque h.opaque,
    quoted_round p.qop_options h.qop_options,
    quoted_round p.realm h.realm,
    plain_round p.stale h.stale,
  )

  -- An `Authentication-Info` value with plain texts, there and back, while no allocation fails
  -- and the quoting functions do what is documented of them.
  pub authentication_round :
      (p : Proto.Authentication)
      → PlainAuthentication p
      → authentication_proto q (authentication_unproto q p) [] ≡ (some p, [])
  unfolding authentication_proto authentication_unproto
  authentication_round p h = simp (
    ample,
    quoted_round p.cnonce h.cnonce,
    quoted_round p.nextnonce h.nextnonce,
    plain_round p.nonce_count h.nonce_count,
    quoted_round p.qop_options h.qop_options,
    quoted_round p.rspauth h.rspauth,
  )
