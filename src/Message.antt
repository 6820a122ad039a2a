-- ===== src/Message.antt =====
-- lib/proto/message_clone.c: the deep copy of a message, by its descriptor.
-- A message is the list of its fields' members, in the order of its descriptor. Numbers are the bit
-- patterns of their bytes. A message is copied onto one that `protobuf_c_message_init` or `_setup`
-- has written, whose counts are 0; allocations succeed. Descriptors are compared by assertions only.
pub mod Fits
pub mod Typing
pub mod Copy
pub mod Name
mod Tests
use sipecho.Common.{ℕ, zero, suc, Bool, true, false, ◌==◌, if◌then◌else◌, Option, none, some}
use sipecho.Xml.Text.{Bytes}

-- `ProtobufCLabel`; `unlabelled` is PROTOBUF_C_LABEL_NONE.
pub data Label : Type 0 where
  required unlabelled optional repeated : Label

mutual
  -- `ProtobufCType`, with the descriptor of a message type.
  pub data FieldType : Type 0 where
    sfixed32 sint32 int32 fixed32 uint32 sfixed64 sint64 int64 fixed64 uint64 : FieldType
    float double bool string bytes enum : FieldType
    message : Fields → FieldType

  -- The fields of a descriptor. The Boolean tells whether a field that is not repeated has a member
  -- `has_...`; for one that has none, `quantifier_offset` is 0.
  pub data Fields : Type 0 where
    nil : Fields
    field : Label → Bool → FieldType → Fields → Fields

mutual
  -- A member: a number, a string, bytes, a message or a null pointer; `junk` is memory that was
  -- never written.
  pub data Value : Type 0 where
    word : ℕ → Value
    text : Bytes → Value
    binary : Bytes → Value
    null : Value
    sub : Members → Value
    junk : Value

  -- The members of a message, each with its `has_...`; a repeated one is an array, whose count is
  -- its length, or a null pointer with a count.
  pub data Members : Type 0 where
    end : Members
    one : ℕ → Value → Members → Members
    many : Values → Members → Members
    no_array : ℕ → Members → Members

  pub data Values : Type 0 where
    empty : Values
    cons : Value → Values → Values

-- `init` is `protobuf_c_message_init` and `protobuf_c_message_setup`. `pointer` is what stands at
-- offset 0 of a message, an int of its pointer to the descriptor: an optional field without a
-- `has_...` takes that for it.
module _ (init : Fields → Members) (pointer : ℕ) where
  -- The end of `optional_field_clone`, from the quantifier of the original and the member's copy.
  abbrev pub quantifier : Bool → ℕ → ℕ
  quantifier true has = has
  quantifier false has = pointer

  abbrev pub optional_field_clone : Bool → ℕ → ℕ → Value → Value → Members → Members
  optional_field_clone flagged has has' member copy rest =
      if quantifier flagged has' == 0
      then one has member rest
      else one (if flagged then has' else has) copy rest

  unfoldable mutual
    -- `field_clone` onto a member. The bytes and the enum are left as they are.
    pub field_clone : FieldType → Value → Value → Value
    field_clone sfixed32 member original = original
    field_clone sint32 member original = original
    field_clone int32 member original = original
    field_clone fixed32 member original = original
    field_clone uint32 member original = original
    field_clone sfixed64 member original = original
    field_clone sint64 member original = original
    field_clone int64 member original = original
    field_clone fixed64 member original = original
    field_clone uint64 member original = original
    field_clone float member original = original
    field_clone double member original = original
    field_clone bool member original = original
    field_clone string member null = member
    field_clone string member original = original
    field_clone bytes member original = member
    field_clone enum member original = member
    field_clone (message fs) member (sub original) = sub (message_clone fs (init fs) original)
    field_clone (message fs) member original = member

    -- The loop of `repeated_field_clone`, over an array that was just allocated.
    pub array_clone : FieldType → Values → Values
    array_clone ty empty = empty
    array_clone ty (cons original rest) = cons (field_clone ty junk original) (array_clone ty rest)

    -- `message_clone`, with `repeated_field_clone`. Of members that do not fit the descriptor
    -- nothing is said.
    pub message_clone : Fields → Members → Members → Members
    message_clone (field required flagged ty fs) (one has member to) (one has' original from) =
        one has (field_clone ty member original) (message_clone fs to from)
    message_clone (field unlabelled flagged ty fs) (one has member to) (one has' original from) =
        optional_field_clone flagged has has' member (field_clone ty member original)
          (message_clone fs to from)
    message_clone (field optional flagged ty fs) (one has member to) (one has' original from) =
        optional_field_clone flagged has has' member (field_clone ty member original)
          (message_clone fs to from)
    message_clone (field repeated flagged ty fs) (no_array count to) (no_array number from) =
        no_array count (message_clone fs to from)
    message_clone (field repeated flagged ty fs) (no_array count to) (many empty from) =
        no_array count (message_clone fs to from)
    message_clone (field repeated flagged ty fs) (no_array count to)
          (many (cons original rest) from) =
        many (array_clone ty (cons original rest)) (message_clone fs to from)
    message_clone fs to from = to

  -- `protobuf_c_message_clone`
  unfoldable pub protobuf_c_message_clone : Fields → Members → Members
  unfolding field_clone
  protobuf_c_message_clone fs from = message_clone fs (init fs) from
