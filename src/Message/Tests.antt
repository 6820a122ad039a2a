-- ===== src/Message/Tests.antt =====
-- A message with a presence flag, an optional string and an array of messages.
use sipecho.Common.{true, false, [], ◌∷◌, ◌≡◌, ◌≢◌, refl, some, length, ◌≤◌, arith}
use sipecho.Xml.Text.{Bytes}
use sipecho.Message.Name.{normal, normal_field_name, xml_name, normal_field_name-xml_name}
use sipecho.Message.{
  required, unlabelled, optional, repeated, FieldType, sfixed32, sint32, int32, fixed32, uint32,
  sfixed64, sint64, int64, fixed64, uint64, float, double, bool, string, bytes, enum, message,
  Fields, nil, field, Value, word, text, binary, null, sub, junk, Members, end, one, many, no_array,
  empty, cons, protobuf_c_message_clone,
}
use sipecho.Message.Fits.{
  FitsType, a_number, a_string, no_string, a_binary, a_message, no_message, no_more, element, Fits,
  no_fields, member, listed, Starts, no_defaults, default, unset, copies_arrays,
}
use sipecho.Message.Typing.{protobuf_c_message_clone-Fits}
use sipecho.Message.Copy
use sipecho.Message.Copy.{Settled, protobuf_c_message_clone_same}

abbrev default_of : FieldType → Value
default_of string = null
default_of bytes = binary []
default_of (message fs) = null
default_of ty = word 0

-- A new message.
abbrev fresh : Fields → Members
fresh nil = end
fresh (field repeated flagged ty fs) = no_array 0 (fresh fs)
fresh (field label flagged ty fs) = one 0 (default_of ty) (fresh fs)

default_of-FitsType : (ty : FieldType) → FitsType ty (default_of ty)
default_of-FitsType sfixed32 = a_number sfixed32 0 refl
default_of-FitsType sint32 = a_number sint32 0 refl
default_of-FitsType int32 = a_number int32 0 refl
default_of-FitsType fixed32 = a_number fixed32 0 refl
default_of-FitsType uint32 = a_number uint32 0 refl
default_of-FitsType sfixed64 = a_number sfixed64 0 refl
default_of-FitsType sint64 = a_number sint64 0 refl
default_of-FitsType int64 = a_number int64 0 refl
default_of-FitsType fixed64 = a_number fixed64 0 refl
default_of-FitsType uint64 = a_number uint64 0 refl
default_of-FitsType float = a_number float 0 refl
default_of-FitsType double = a_number double 0 refl
default_of-FitsType bool = a_number bool 0 refl
default_of-FitsType enum = a_number enum 0 refl
default_of-FitsType string = no_string
default_of-FitsType bytes = a_binary []
default_of-FitsType (message fs) = no_message fs

fresh-Starts : (fs : Fields) → Starts fs (fresh fs)
fresh-Starts nil = no_defaults
fresh-Starts (field required flagged ty fs) =
    default required flagged ty 0 (default_of ty) fs (fresh fs) refl (default_of-FitsType ty)
      (fresh-Starts fs)
fresh-Starts (field unlabelled flagged ty fs) =
    default unlabelled flagged ty 0 (default_of ty) fs (fresh fs) refl (default_of-FitsType ty)
      (fresh-Starts fs)
fresh-Starts (field optional flagged ty fs) =
    default optional flagged ty 0 (default_of ty) fs (fresh fs) refl (default_of-FitsType ty)
      (fresh-Starts fs)
fresh-Starts (field repeated flagged ty fs) = unset flagged ty fs (fresh fs) (fresh-Starts fs)

-- `message pair { required string name; optional string value; }`
abbrev pair : Fields
pair = field required false string (field optional false string nil)

-- `message address { required string host; optional int32 port; repeated pair params; }`
abbrev address : Fields
address =
    field required false string
      (field optional true int32 (field repeated false (message pair) nil))

abbrev lr : Members
lr = one 0 (text (b'l' ∷ b'r' ∷ [])) (one 0 null end)

abbrev local : Members
local = one 0 (text (b'h' ∷ [])) (one 1 (word 5060) (many (cons (sub lr) empty) end))

copied : protobuf_c_message_clone fresh 9 address local ≡ local
unfolding protobuf_c_message_clone
copied = refl

-- An enum is not copied, and its flag is.
not_copied :
    protobuf_c_message_clone fresh 9 (field optional true enum nil) (one 1 (word 3) end)
    ≡ one 1 (word 0) end
unfolding protobuf_c_message_clone
not_copied = refl

lr-Fits : Fits pair lr
lr-Fits =
    member required false string 0 (text (b'l' ∷ b'r' ∷ [])) (field optional false string nil)
      (one 0 null end) refl (a_string (b'l' ∷ b'r' ∷ []))
      (member optional false string 0 null nil end refl no_string no_fields)

local-Fits : Fits address local
local-Fits =
    member required false string 0 (text (b'h' ∷ []))
      (field optional true int32 (field repeated false (message pair) nil))
      (one 1 (word 5060) (many (cons (sub lr) empty) end)) refl (a_string (b'h' ∷ []))
      (member optional true int32 1 (word 5060) (field repeated false (message pair) nil)
        (many (cons (sub lr) empty) end) refl (a_number int32 5060 refl)
        (listed false (message pair) (cons (sub lr) empty) nil end
          (element (message pair) (sub lr) empty refl (a_message pair lr lr-Fits)
            (no_more (message pair)))
          no_fields))

address_arrays : copies_arrays address ≡ true
unfolding copies_arrays
address_arrays = refl

protobuf_c_message_clone-Fits_example :
    Fits address (protobuf_c_message_clone fresh 9 address local)
protobuf_c_message_clone-Fits_example =
    protobuf_c_message_clone-Fits fresh 9 fresh-Starts address local address_arrays local-Fits

int32_not_enum : int32 ≢ enum
int32_not_enum e = cc

lr-Settled : Settled fresh 9 pair (fresh pair) lr
lr-Settled =
    Copy.must false string 0 null (text (b'l' ∷ b'r' ∷ [])) (field optional false string nil)
      (one 0 null end) (one 0 null end) (Copy.a_string null (b'l' ∷ b'r' ∷ []))
      (Copy.pointed optional string 0 null null nil end end refl refl Copy.no_string Copy.no_fields)

local-Settled : Settled fresh 9 address (fresh address) local
local-Settled =
    Copy.must false string 0 null (text (b'h' ∷ []))
      (field optional true int32 (field repeated false (message pair) nil))
      (one 0 (word 0) (no_array 0 end)) (one 1 (word 5060) (many (cons (sub lr) empty) end))
      (Copy.a_string null (b'h' ∷ []))
      (Copy.present optional int32 0 1 (word 0) (word 5060)
        (field repeated false (message pair) nil) (no_array 0 end) (many (cons (sub lr) empty) end)
        refl refl (Copy.a_number int32 (word 0) 5060 refl int32_not_enum)
        (Copy.listed false (message pair) (sub lr) empty nil end end
          (Copy.a_message pair junk lr lr-Settled) (Copy.no_more (message pair)) Copy.no_fields))

protobuf_c_message_clone_same_example : protobuf_c_message_clone fresh 9 address local ≡ local
protobuf_c_message_clone_same_example =
    protobuf_c_message_clone_same fresh 9 address local local-Settled

-- `a____b_`, and what it is in XML.
abbrev four : Bytes
four = b'_' ∷ b'_' ∷ b'_' ∷ b'_' ∷ b'b' ∷ b'_' ∷ []

colon_underscore : normal_field_name (b'a' ∷ four) ≡ some (b'a' ∷ b':' ∷ b'_' ∷ b'b' ∷ [])
unfolding normal_field_name
colon_underscore = refl

normal_field_name-xml_name_example :
    (normal 20 0 (b'a' ∷ four) ≡ xml_name 0 (b'a' ∷ four))
    × (normal_field_name (b'a' ∷ four) ≡ some (xml_name 0 (b'a' ∷ four)))
    × (length (xml_name 0 (b'a' ∷ four)) ≤ length (b'a' ∷ four))
normal_field_name-xml_name_example = normal_field_name-xml_name b'a' four 20 (omega arith)
