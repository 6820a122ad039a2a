-- ===== src/Sip/Head/RoundTrip.antt =====
-- The headers of a message there and back.
use mathlib.Core.Option
use sipecho.Common.{Option, some, none, List, [], map, ◌≡◌}
use sipecho.Sip.Alloc.{Text, null_or, array_or_break, malloc}
use sipecho.Sip.Alloc.Ample.{All, Each, dup_ample, null_or_ample, array_or_break_ample}
use sipecho.Sip.Proto
use sipecho.Sip.Header.{
  Quoting, call_id_proto, call_id_unproto, cseq_proto, cseq_unproto, pair_proto, pair_unproto,
  content_type_proto, content_type_unproto, encode_proto, encode_unproto, via_proto, via_unproto,
  address_proto, address_unproto, authorization_proto, authorization_unproto, authenticate_proto,
  authenticate_unproto, authentication_proto, authentication_unproto,
}
use sipecho.Sip.Header.RoundTrip.{
  IsPlain, QuotingLaws, AnyOf, All-any, call_id_round, cseq_round, pair_round, content_type_round,
  encode_round, via_round, address_round, PlainAuthorization, authorization_round,
  PlainAuthenticate, authenticate_round, PlainAuthentication, authentication_round,
}
use sipecho.Sip.Head.{
  allow_proto, allow_unproto, head_proto, head_unproto, empty_message, full_bitset,
}

abbrev pub DisplayPlain : Proto.Address → Type 0
DisplayPlain p = Each IsPlain p.displayname

-- The texts that are quoted or unquoted on the way are plain.
pub record PlainHead (p : Proto.Head) : Type 0 where
  pub from : Each DisplayPlain p.from
  pub to : Each DisplayPlain p.to
  pub allow : All IsPlain p.allow
  pub contact : All DisplayPlain p.contact
  pub proxy_authenticate : All PlainAuthenticate p.proxy_authenticate
  pub proxy_authentication : All PlainAuthentication p.proxy_authentication
  pub proxy_authorization : All PlainAuthorization p.proxy_authorization
  pub authenticate : All PlainAuthenticate p.authenticate
  pub authentication : All PlainAuthentication p.authentication
  pub authorization : All PlainAuthorization p.authorization
  pub record_route : All DisplayPlain p.record_route
  pub route : All DisplayPlain p.route

Each-any : {Y : Type 0} (o : Option Y) → Each AnyOf o
Each-any none = tt
Each-any (some y) = tt

module _ (q : Quoting) (laws : QuotingLaws q) where
  allow_round : (t : Text) → IsPlain t → allow_proto q (allow_unproto q t) [] ≡ (some t, [])
  unfolding allow_proto allow_unproto malloc
  allow_round t h = rw (laws.unquote_plain t h, laws.unquote_plain t h)

  content_types_round :
      (ps : List Proto.ContentType)
      → array_or_break content_type_proto (map content_type_unproto ps) [] ≡ (some ps, [])
  content_types_round ps =
      array_or_break_ample content_type_proto content_type_unproto AnyOf
        (λ p h. content_type_round p) ps (All-any ps)

  encodes_round :
      (ps : List Proto.Encode)
      → array_or_break encode_proto (map encode_unproto ps) [] ≡ (some ps, [])
  encodes_round ps =
      array_or_break_ample encode_proto encode_unproto AnyOf (λ p h. encode_round p) ps (All-any ps)

  vias_round :
      (ps : List Proto.Via) → array_or_break via_proto (map via_unproto ps) [] ≡ (some ps, [])
  vias_round ps =
      array_or_break_ample via_proto via_unproto AnyOf (λ p h. via_round p) ps (All-any ps)

  pairs_round :
      (ps : List Proto.Pair) → array_or_break pair_proto (map pair_unproto ps) [] ≡ (some ps, [])
  pairs_round ps =
      array_or_break_ample pair_proto pair_unproto AnyOf (λ p h. pair_round p) ps (All-any ps)

  addresss_round :
      (ps : List Proto.Address)
      → All DisplayPlain ps
      → array_or_break (address_proto q) (map (address_unproto q) ps) [] ≡ (some ps, [])
  addresss_round ps h =
      array_or_break_ample (address_proto q) (address_unproto q) DisplayPlain (address_round q laws)
        ps h

  authorizations_round :
      (ps : List Proto.Authorization)
      → All PlainAuthorization ps
      → array_or_break (authorization_proto q) (map (authorization_unproto q) ps) [] ≡ (some ps, [])
  authorizations_round ps h =
      array_or_break_ample (authorization_proto q) (authorization_unproto q) PlainAuthorization
        (authorization_round q laws) ps h

  authenticates_round :
      (ps : List Proto.Authenticate)
      → All PlainAuthenticate ps
      → array_or_break (authenticate_proto q) (map (authenticate_unproto q) ps) [] ≡ (some ps, [])
  authenticates_round ps h =
      array_or_break_ample (authenticate_proto q) (authenticate_unproto q) PlainAuthenticate
        (authenticate_round q laws) ps h

  authentications_round :
      (ps : List Proto.Authentication)
      → All PlainAuthentication ps
      → array_or_break (authentication_proto q) (map (authentication_unproto q) ps) []
        ≡ (some ps, [])
  authentications_round ps h =
      array_or_break_ample (authentication_proto q) (authentication_unproto q) PlainAuthentication
        (authentication_round q laws) ps h

  allows_round :
      (ps : List Text)
      → All IsPlain ps
      → array_or_break (allow_proto q) (map (allow_unproto q) ps) [] ≡ (some ps, [])
  allows_round ps h =
      array_or_break_ample (allow_proto q) (allow_unproto q) IsPlain (allow_round) ps h

  call_id_option_round :
      (o : Option Proto.CallId)
      → null_or call_id_proto (Option.map call_id_unproto o) [] ≡ (some o, [])
  call_id_option_round o =
      null_or_ample call_id_proto call_id_unproto AnyOf (λ p h. call_id_round p) o (Each-any o)

  cseq_option_round :
      (o : Option Proto.Cseq) → null_or cseq_proto (Option.map cseq_unproto o) [] ≡ (some o, [])
  cseq_option_round o =
      null_or_ample cseq_proto cseq_unproto AnyOf (λ p h. cseq_round p) o (Each-any o)

  content_type_option_round :
      (o : Option Proto.ContentType)
      → null_or content_type_proto (Option.map content_type_unproto o) [] ≡ (some o, [])
  content_type_option_round o =
      null_or_ample content_type_proto content_type_unproto AnyOf (λ p h. content_type_round p) o
        (Each-any o)

  address_option_round :
      (o : Option Proto.Address)
      → Each DisplayPlain o
      → null_or (address_proto q) (Option.map (address_unproto q) o) [] ≡ (some o, [])
  address_option_round =
      null_or_ample (address_proto q) (address_unproto q) DisplayPlain (address_round q laws)

  -- The headers of a message, put into an empty struct of the parser with all bits set, are
  -- converted to the same message head again, while no allocation fails and the quoted texts are
  -- plain.
  pub head_round :
      (p : Proto.Head)
      → PlainHead p
      → head_proto q (head_unproto q empty_message p full_bitset) [] ≡ (some p, [])
  unfolding head_proto head_unproto
  head_round p h = simp (
    dup_ample,
    call_id_option_round,
    cseq_option_round,
    content_type_option_round,
    content_types_round,
    encodes_round,
    vias_round,
    pairs_round,
    address_option_round p.from h.from,
    address_option_round p.to h.to,
    allows_round p.allow h.allow,
    addresss_round p.contact h.contact,
    authenticates_round p.proxy_authenticate h.proxy_authenticate,
    authentications_round p.proxy_authentication h.proxy_authentication,
    authorizations_round p.proxy_authorization h.proxy_authorization,
    authenticates_round p.authenticate h.authenticate,
    authentications_round p.authentication h.authentication,
    authorizations_round p.authorization h.authorization,
    addresss_round p.record_route h.record_route,
    addresss_round p.route h.route,
  )
