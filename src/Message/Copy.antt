-- ===== src/Message/Copy.antt =====
-- When the copy of a message is the same, and what is left out of a copy.
use sipecho.Common.{ℕ, Bool, true, false, ◌==◌, ◌≡◌, ◌≢◌, refl, ap, ap₂, arith}
use sipecho.Xml.Text.{Bytes}
use sipecho.Message.{
  Label, required, unlabelled, optional, repeated, FieldType, sfixed32, sint32, int32, fixed32,
  uint32, sfixed64, sint64, int64, fixed64, uint64, float, double, bool, string, bytes, enum,
  message, Fields, nil, field, Value, word, text, null, sub, junk, Members, end, one, many,
  no_array, Values, empty, cons, field_clone, array_clone, message_clone, protobuf_c_message_clone,
}
use sipecho.Message.Fits.{is_number}

abbrev pub is_optional : Label → Bool
is_optional unlabelled = true
is_optional optional = true
is_optional label = false

module _ (init : Fields → Members) (pointer : ℕ) where
  -- A message without bytes and enums, nor null pointers in its arrays, in which what is not set is
  -- as in a new message: the second message is such a one, the first is a new one.
  mutual
    pub data SameType : FieldType → Value → Value → Type 0 where
      a_number :
          (ty : FieldType) (v : Value) (n : ℕ)
          → is_number ty ≡ true
          → ty ≢ enum
          → SameType ty v (word n)
      a_string : (v : Value) (t : Bytes) → SameType string v (text t)
      no_string : SameType string null null
      a_message :
          (fs : Fields) (v : Value) (s : Members)
          → Settled fs (init fs) s
          → SameType (message fs) v (sub s)
      no_message : (fs : Fields) → SameType (message fs) null null

    pub data SameAll : FieldType → Values → Type 0 where
      no_more : (ty : FieldType) → SameAll ty empty
      element :
          (ty : FieldType) (v : Value) (vs : Values)
          → SameType ty junk v
          → SameAll ty vs
          → SameAll ty (cons v vs)

    pub data Settled : Fields → Members → Members → Type 0 where
      no_fields : Settled nil end end
      must :
          (flagged : Bool) (ty : FieldType) (has : ℕ) (v w : Value) (fs : Fields)
          (to from : Members)
          → SameType ty v w
          → Settled fs to from
          → Settled (field required flagged ty fs) (one has v to) (one has w from)
      present :
          (label : Label) (ty : FieldType) (has has' : ℕ) (v w : Value) (fs : Fields)
          (to from : Members)
          → is_optional label ≡ true
          → (has' == 0) ≡ false
          → SameType ty v w
          → Settled fs to from
          → Settled (field label true ty fs) (one has v to) (one has' w from)
      absent :
          (label : Label) (ty : FieldType) (v : Value) (fs : Fields) (to from : Members)
          → is_optional label ≡ true
          → Settled fs to from
          → Settled (field label true ty fs) (one 0 v to) (one 0 v from)
      pointed :
          (label : Label) (ty : FieldType) (has : ℕ) (v w : Value) (fs : Fields) (to from : Members)
          → is_optional label ≡ true
          → (pointer == 0) ≡ false
          → SameType ty v w
          → Settled fs to from
          → Settled (field label false ty fs) (one has v to) (one has w from)
      listed :
          (flagged : Bool) (ty : FieldType) (v : Value) (vs : Values) (fs : Fields)
          (to from : Members)
          → SameType ty junk v
          → SameAll ty vs
          → Settled fs to from
          → Settled (field repeated flagged ty fs) (no_array 0 to) (many (cons v vs) from)
      unlisted :
          (flagged : Bool) (ty : FieldType) (fs : Fields) (to from : Members)
          → Settled fs to from
          → Settled (field repeated flagged ty fs) (no_array 0 to) (no_array 0 from)

  copied_number :
      (ty : FieldType) (v : Value) (n : ℕ)
      → is_number ty ≡ true
      → ty ≢ enum
      → field_clone init pointer ty v (word n) ≡ word n
  unfolding field_clone
  copied_number sfixed32 v n e other = refl
  copied_number sint32 v n e other = refl
  copied_number int32 v n e other = refl
  copied_number fixed32 v n e other = refl
  copied_number uint32 v n e other = refl
  copied_number sfixed64 v n e other = refl
  copied_number sint64 v n e other = refl
  copied_number int64 v n e other = refl
  copied_number fixed64 v n e other = refl
  copied_number uint64 v n e other = refl
  copied_number float v n e other = refl
  copied_number double v n e other = refl
  copied_number bool v n e other = refl
  copied_number enum v n e other = absurd (other refl)
  copied_number string v n e other = absurd (ground (arith, e))
  copied_number bytes v n e other = absurd (ground (arith, e))
  copied_number (message fs) v n e other = absurd (ground (arith, e))

  mutual
    unfolding field_clone

    field_clone_same :
        (ty : FieldType) (v w : Value) → SameType ty v w → field_clone init pointer ty v w ≡ w
    field_clone_same ty v _ (a_number _ _ n e other) = copied_number ty v n e other
    field_clone_same _ v _ (a_string _ t) = refl
    field_clone_same _ _ _ no_string = refl
    field_clone_same _ v _ (a_message fs _ s h) = ap sub (message_clone_same fs (init fs) s h)
    field_clone_same _ _ _ (no_message fs) = refl

    array_clone_same :
        (ty : FieldType) (vs : Values) → SameAll ty vs → array_clone init pointer ty vs ≡ vs
    array_clone_same ty _ (no_more _) = refl
    array_clone_same ty _ (element _ v vs h hs) =
        ap₂ cons (field_clone_same ty junk v h) (array_clone_same ty vs hs)

    message_clone_same :
        (fs : Fields) (to from : Members)
        → Settled fs to from
        → message_clone init pointer fs to from ≡ from
    message_clone_same _ _ _ no_fields = refl
    message_clone_same _ _ _ (must flagged ty has v w fs to from h r) =
        ap₂ (one has) (field_clone_same ty v w h) (message_clone_same fs to from r)
    message_clone_same _ _ _ (present unlabelled ty has has' v w fs to from o e h r) =
        rw e (ap₂ (one has') (field_clone_same ty v w h) (message_clone_same fs to from r))
    message_clone_same _ _ _ (present optional ty has has' v w fs to from o e h r) =
        rw e (ap₂ (one has') (field_clone_same ty v w h) (message_clone_same fs to from r))
    message_clone_same _ _ _ (present required ty has has' v w fs to from o e h r) =
        absurd (ground (arith, o))
    message_clone_same _ _ _ (present repeated ty has has' v w fs to from o e h r) =
        absurd (ground (arith, o))
    message_clone_same _ _ _ (absent unlabelled ty v fs to from o r) =
        ap (one 0 v) (message_clone_same fs to from r)
    message_clone_same _ _ _ (absent optional ty v fs to from o r) =
        ap (one 0 v) (message_clone_same fs to from r)
    message_clone_same _ _ _ (absent required ty v fs to from o r) = absurd (ground (arith, o))
    message_clone_same _ _ _ (absent repeated ty v fs to from o r) = absurd (ground (arith, o))
    message_clone_same _ _ _ (pointed unlabelled ty has v w fs to from o e h r) =
        rw e (ap₂ (one has) (field_clone_same ty v w h) (message_clone_same fs to from r))
    message_clone_same _ _ _ (pointed optional ty has v w fs to from o e h r) =
        rw e (ap₂ (one has) (field_clone_same ty v w h) (message_clone_same fs to from r))
    message_clone_same _ _ _ (pointed required ty has v w fs to from o e h r) =
        absurd (ground (arith, o))
    message_clone_same _ _ _ (pointed repeated ty has v w fs to from o e h r) =
        absurd (ground (arith, o))
    message_clone_same _ _ _ (listed flagged ty v vs fs to from h hs r) =
        ap₂ many (ap₂ cons (field_clone_same ty junk v h) (array_clone_same ty vs hs))
          (message_clone_same fs to from r)
    message_clone_same _ _ _ (unlisted flagged ty fs to from r) =
        ap (no_array 0) (message_clone_same fs to from r)

  -- The copy of a message is the same message, members and presence flags, nested messages and
  -- arrays, if it has no bytes and no enums, no null pointers in its arrays, its unset members hold
  -- what a new message holds, and the pointer that optional strings and messages take for their
  -- flag is not 0.
  pub protobuf_c_message_clone_same :
      (fs : Fields) (from : Members)
      → Settled fs (init fs) from
      → protobuf_c_message_clone init pointer fs from ≡ from
  unfolding protobuf_c_message_clone
  protobuf_c_message_clone_same fs from h = message_clone_same fs (init fs) from h

  abbrev pub is_skipped : FieldType → Bool
  is_skipped bytes = true
  is_skipped enum = true
  is_skipped ty = false

  abbrev pub unwritten : Values → Values
  unwritten empty = empty
  unwritten (cons v vs) = cons junk (unwritten vs)

  array_clone-unwritten :
      (vs : Values)
      → (array_clone init pointer bytes vs ≡ unwritten vs)
        × (array_clone init pointer enum vs ≡ unwritten vs)
  unfolding field_clone
  array_clone-unwritten empty = (refl, refl)
  array_clone-unwritten (cons v vs) =
      let (p, q) = array_clone-unwritten vs in (ap (cons junk) p, ap (cons junk) q)

  -- The copy of a repeated field of bytes or of an enum that is not empty has as many elements, and
  -- none of them was ever written.
  pub message_clone-unwritten :
      (ty : FieldType) (flagged : Bool) (fs : Fields) (to from : Members) (v : Value) (vs : Values)
      → is_skipped ty ≡ true
      → message_clone init pointer
          (field repeated flagged ty fs)
          (no_array 0 to)
          (many (cons v vs) from)
        ≡ many (unwritten (cons v vs)) (message_clone init pointer fs to from)
  unfolding field_clone
  message_clone-unwritten bytes flagged fs to from v vs e =
      ap (λ (l : Values). many (cons junk l) (message_clone init pointer fs to from))
        (array_clone-unwritten vs).0
  message_clone-unwritten enum flagged fs to from v vs e =
      ap (λ (l : Values). many (cons junk l) (message_clone init pointer fs to from))
        (array_clone-unwritten vs).1
  message_clone-unwritten sfixed32 flagged fs to from v vs e = absurd (ground (arith, e))
  message_clone-unwritten sint32 flagged fs to from v vs e = absurd (ground (arith, e))
  message_clone-unwritten int32 flagged fs to from v vs e = absurd (ground (arith, e))
  message_clone-unwritten fixed32 flagged fs to from v vs e = absurd (ground (arith, e))
  message_clone-unwritten uint32 flagged fs to from v vs e = absurd (ground (arith, e))
  message_clone-unwritten sfixed64 flagged fs to from v vs e = absurd (ground (arith, e))
  message_clone-unwritten sint64 flagged fs to from v vs e = absurd (ground (arith, e))
  message_clone-unwritten int64 flagged fs to from v vs e = absurd (ground (arith, e))
  message_clone-unwritten fixed64 flagged fs to from v vs e = absurd (ground (arith, e))
  message_clone-unwritten uint64 flagged fs to from v vs e = absurd (ground (arith, e))
  message_clone-unwritten float flagged fs to from v vs e = absurd (ground (arith, e))
  message_clone-unwritten double flagged fs to from v vs e = absurd (ground (arith, e))
  message_clone-unwritten bool flagged fs to from v vs e = absurd (ground (arith, e))
  message_clone-unwritten string flagged fs to from v vs e = absurd (ground (arith, e))
  message_clone-unwritten (message ms) flagged fs to from v vs e = absurd (ground (arith, e))
