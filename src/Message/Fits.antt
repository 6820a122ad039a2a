-- ===== src/Message/Fits.antt =====
-- When a message fits its descriptor.
use sipecho.Common.{ℕ, Bool, true, false, ◌&&◌, ◌≡◌}
use sipecho.Xml.Text.{Bytes}
use sipecho.Message.{
  Label, repeated, FieldType, string, bytes, enum, message, Fields, nil, field, Value, word, text,
  binary, null, sub, Members, end, one, many, no_array, Values, empty, cons,
}

-- The types whose members are numbers.
abbrev pub is_number : FieldType → Bool
is_number string = false
is_number bytes = false
is_number (message fs) = false
is_number ty = true

abbrev pub is_repeated : Label → Bool
is_repeated repeated = true
is_repeated label = false

abbrev pub is_null : Value → Bool
is_null null = true
is_null v = false

mutual
  pub data FitsType : FieldType → Value → Type 0 where
    a_number : (ty : FieldType) (n : ℕ) → is_number ty ≡ true → FitsType ty (word n)
    a_string : (t : Bytes) → FitsType string (text t)
    no_string : FitsType string null
    a_binary : (t : Bytes) → FitsType bytes (binary t)
    a_message : (fs : Fields) (s : Members) → Fits fs s → FitsType (message fs) (sub s)
    no_message : (fs : Fields) → FitsType (message fs) null

  -- An array of strings or messages has no null pointers.
  pub data AllFit : FieldType → Values → Type 0 where
    no_more : (ty : FieldType) → AllFit ty empty
    element :
        (ty : FieldType) (v : Value) (vs : Values)
        → is_null v ≡ false
        → FitsType ty v
        → AllFit ty vs
        → AllFit ty (cons v vs)

  pub data Fits : Fields → Members → Type 0 where
    no_fields : Fits nil end
    member :
        (label : Label) (flagged : Bool) (ty : FieldType) (has : ℕ) (v : Value) (fs : Fields)
        (s : Members)
        → is_repeated label ≡ false
        → FitsType ty v
        → Fits fs s
        → Fits (field label flagged ty fs) (one has v s)
    listed :
        (flagged : Bool) (ty : FieldType) (vs : Values) (fs : Fields) (s : Members)
        → AllFit ty vs
        → Fits fs s
        → Fits (field repeated flagged ty fs) (many vs s)
    unlisted :
        (flagged : Bool) (ty : FieldType) (fs : Fields) (s : Members)
        → Fits fs s
        → Fits (field repeated flagged ty fs) (no_array 0 s)

-- What the library makes of a new message: it fits, and has no arrays.
pub data Starts : Fields → Members → Type 0 where
  no_defaults : Starts nil end
  default :
      (label : Label) (flagged : Bool) (ty : FieldType) (has : ℕ) (v : Value) (fs : Fields)
      (s : Members)
      → is_repeated label ≡ false
      → FitsType ty v
      → Starts fs s
      → Starts (field label flagged ty fs) (one has v s)
  unset :
      (flagged : Bool) (ty : FieldType) (fs : Fields) (s : Members)
      → Starts fs s
      → Starts (field repeated flagged ty fs) (no_array 0 s)

-- No field of the descriptor, nor of those of its messages, is a repeated one of bytes or an enum.
unfoldable mutual
  pub is_element : FieldType → Bool
  is_element bytes = false
  is_element enum = false
  is_element (message fs) = copies_arrays fs
  is_element ty = true

  pub is_member : FieldType → Bool
  is_member (message fs) = copies_arrays fs
  is_member ty = true

  pub copies_arrays : Fields → Bool
  copies_arrays nil = true
  copies_arrays (field repeated flagged ty fs) = is_element ty && copies_arrays fs
  copies_arrays (field label flagged ty fs) = is_member ty && copies_arrays fs
