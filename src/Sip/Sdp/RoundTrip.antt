-- ===== src/Sip/Sdp/RoundTrip.antt =====
-- A session description there and back.
use mathlib.Core.Option
use sipecho.Common.{Option, some, none, List, [], map, ◌≡◌, refl}
use sipecho.Sip.Alloc.{Text, malloc, null_or, array_any}
use sipecho.Sip.Alloc.Ample.{malloc_ample, dup_ample, null_or_ample, array_any_ample}
use sipecho.Sip.Proto
use sipecho.Sip.Header.RoundTrip.{AnyOf, All-any}
use sipecho.Sip.Sdp.{
  char_proto, char_unproto, connection_proto, connection_unproto, bandwidth_proto,
  bandwidth_unproto, time_proto, time_unproto, key_proto, key_unproto, attribute_proto,
  attribute_unproto, media_proto, media_unproto, sdp_proto, sdp_unproto,
}

ruleset ample = (malloc_ample, dup_ample)

char_round : (t : Text) → char_proto (char_unproto t) [] ≡ (some t, [])
unfolding char_proto malloc
char_round t = refl

chars_round : (ps : List Text) → array_any char_proto (map char_unproto ps) [] ≡ (some ps, [])
chars_round ps = array_any_ample char_proto char_unproto AnyOf (λ p h. char_round p) ps (All-any ps)

connection_round :
    (p : Proto.Connection) → connection_proto (connection_unproto p) [] ≡ (some p, [])
unfolding connection_proto connection_unproto
connection_round p = simp ample

connections_round :
    (ps : List Proto.Connection)
    → array_any connection_proto (map connection_unproto ps) [] ≡ (some ps, [])
connections_round ps =
    array_any_ample connection_proto connection_unproto AnyOf (λ p h. connection_round p) ps
      (All-any ps)

connection_option_round :
    (o : Option Proto.Connection)
    → null_or connection_proto (Option.map connection_unproto o) [] ≡ (some o, [])
connection_option_round none =
    null_or_ample connection_proto connection_unproto AnyOf (λ p h. connection_round p) none tt
connection_option_round (some p) =
    null_or_ample connection_proto connection_unproto AnyOf (λ p h. connection_round p) (some p) tt

bandwidth_round : (p : Proto.Bandwidth) → bandwidth_proto (bandwidth_unproto p) [] ≡ (some p, [])
unfolding bandwidth_proto bandwidth_unproto
bandwidth_round p = simp ample

bandwidths_round :
    (ps : List Proto.Bandwidth)
    → array_any bandwidth_proto (map bandwidth_unproto ps) [] ≡ (some ps, [])
bandwidths_round ps =
    array_any_ample bandwidth_proto bandwidth_unproto AnyOf (λ p h. bandwidth_round p) ps
      (All-any ps)

time_round : (p : Proto.Time) → time_proto (time_unproto p) [] ≡ (some p, [])
unfolding time_proto time_unproto
time_round p = simp (ample, chars_round)

times_round : (ps : List Proto.Time) → array_any time_proto (map time_unproto ps) [] ≡ (some ps, [])
times_round ps = array_any_ample time_proto time_unproto AnyOf (λ p h. time_round p) ps (All-any ps)

key_round : (p : Proto.Key) → key_proto (key_unproto p) [] ≡ (some p, [])
unfolding key_proto key_unproto
key_round p = simp ample

key_option_round :
    (o : Option Proto.Key) → null_or key_proto (Option.map key_unproto o) [] ≡ (some o, [])
key_option_round none = null_or_ample key_proto key_unproto AnyOf (λ p h. key_round p) none tt
key_option_round (some p) =
    null_or_ample key_proto key_unproto AnyOf (λ p h. key_round p) (some p) tt

attribute_round : (p : Proto.Attribute) → attribute_proto (attribute_unproto p) [] ≡ (some p, [])
unfolding attribute_proto attribute_unproto
attribute_round p = simp ample

attributes_round :
    (ps : List Proto.Attribute)
    → array_any attribute_proto (map attribute_unproto ps) [] ≡ (some ps, [])
attributes_round ps =
    array_any_ample attribute_proto attribute_unproto AnyOf (λ p h. attribute_round p) ps
      (All-any ps)

media_round : (p : Proto.Media) → media_proto (media_unproto p) [] ≡ (some p, [])
unfolding media_proto media_unproto
media_round p =
    simp
      (ample, chars_round, connections_round, bandwidths_round, attributes_round, key_option_round)

medias_round :
    (ps : List Proto.Media) → array_any media_proto (map media_unproto ps) [] ≡ (some ps, [])
medias_round ps =
    array_any_ample media_proto media_unproto AnyOf (λ p h. media_round p) ps (All-any ps)

-- A session description, converted to the parser's struct, is converted to the same protocol buffer
-- again, while no allocation fails.
pub sdp_round : (p : Proto.Sdp) → sdp_proto (sdp_unproto p) [] ≡ (some p, [])
unfolding sdp_proto sdp_unproto
sdp_round p = simp (
  ample, chars_round, bandwidths_round, times_round, attributes_round, medias_round,
  connection_option_round, key_option_round,
)
