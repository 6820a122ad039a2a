-- ===== src/Message/Typing.antt =====
-- The copy of a message fits its descriptor.
use sipecho.Common.{
  ℕ, Bool, true, false, ◌&&◌, ◌==◌, if◌then◌else◌, ◌≡◌, refl, arith, ◌⊎◌, inl, inr, Bool-cases,
}
use sipecho.Message.{
  Label, required, unlabelled, optional, repeated, FieldType, sfixed32, sint32, int32, fixed32,
  uint32, sfixed64, sint64, int64, fixed64, uint64, float, double, bool, string, bytes, enum,
  message, Fields, field, Value, word, junk, Members, Values, cons, quantifier,
  optional_field_clone, field_clone, array_clone, message_clone, protobuf_c_message_clone,
}
use sipecho.Message.Fits.{
  is_number, is_repeated, is_null, FitsType, a_number, a_string, no_string, a_binary, a_message,
  no_message, AllFit, no_more, element, Fits, no_fields, member, listed, unlisted, Starts,
  no_defaults, default, unset, is_element, is_member, copies_arrays,
}

module _ (init : Fields → Members) (pointer : ℕ) where
  -- A number is copied, but for an enum.
  number_clone :
      (ty : FieldType) (member : Value) (n : ℕ)
      → is_number ty ≡ true
      → (field_clone init pointer ty member (word n) ≡ word n)
        ⊎ ((is_element ty ≡ false) × (field_clone init pointer ty member (word n) ≡ member))
  unfolding field_clone is_element
  number_clone sfixed32 v n e = inl refl
  number_clone sint32 v n e = inl refl
  number_clone int32 v n e = inl refl
  number_clone fixed32 v n e = inl refl
  number_clone uint32 v n e = inl refl
  number_clone sfixed64 v n e = inl refl
  number_clone sint64 v n e = inl refl
  number_clone int64 v n e = inl refl
  number_clone fixed64 v n e = inl refl
  number_clone uint64 v n e = inl refl
  number_clone float v n e = inl refl
  number_clone double v n e = inl refl
  number_clone bool v n e = inl refl
  number_clone enum v n e = inr (refl, refl)
  number_clone string v n e = absurd (ground (arith, e))
  number_clone bytes v n e = absurd (ground (arith, e))
  number_clone (message fs) v n e = absurd (ground (arith, e))

  optional-Fits :
      (label : Label) (flagged : Bool) (ty : FieldType) (has has' : ℕ) (v copy : Value)
      (fs : Fields) (rest : Members)
      → is_repeated label ≡ false
      → FitsType ty v
      → FitsType ty copy
      → Fits fs rest
      → Fits
          (field label flagged ty fs)
          (optional_field_clone init pointer flagged has has' v copy rest)
  optional-Fits label flagged ty has has' v copy fs rest e h c r =
      elim (Bool-cases (quantifier init pointer flagged has' == 0)) [
        | inl q ↦ rw q (member label flagged ty has v fs rest e h r)
        | inr q ↦ rw q (member label flagged ty (if flagged then has' else has) copy fs rest e c r)
      ]

  both : (a b : Bool) → (a && b) ≡ true → (a ≡ true) × (b ≡ true)
  both true b e = (refl, e)
  both false b e = absurd (ground (arith, e))

  module _ (starts : (fs : Fields) → Starts fs (init fs)) where
    mutual
      unfolding field_clone is_element

      member-FitsType :
          (ty : FieldType) (v w : Value)
          → is_member ty ≡ true
          → FitsType ty v
          → FitsType ty w
          → FitsType ty (field_clone init pointer ty v w)
      member-FitsType ty v _ ok h (a_number _ n e) = elim (number_clone ty v n e) [
        | inl q ↦ rw q (a_number ty n e)
        | inr (_, q) ↦ rw q h
      ]
      member-FitsType _ v _ ok h (a_string t) = a_string t
      member-FitsType _ v _ ok h no_string = h
      member-FitsType _ v _ ok h (a_binary t) = h
      member-FitsType _ v _ ok h (a_message fs s f) =
          a_message fs (message_clone init pointer fs (init fs) s)
            (message_clone-Fits fs (init fs) s ok (starts fs) f)
      member-FitsType _ v _ ok h (no_message fs) = h

      element-FitsType :
          (ty : FieldType) (v w : Value)
          → is_element ty ≡ true
          → is_null w ≡ false
          → FitsType ty w
          → FitsType ty (field_clone init pointer ty v w)
            × (is_null (field_clone init pointer ty v w) ≡ false)
      element-FitsType ty v _ ok e (a_number _ n number) = elim (number_clone ty v n number) [
        | inl q ↦ rw q (a_number ty n number, refl)
        | inr (not_copied, q) ↦ absurd (ground (arith, not_copied, ok))
      ]
      element-FitsType _ v _ ok e (a_string t) = (a_string t, refl)
      element-FitsType _ v _ ok e no_string = absurd (ground (arith, e))
      element-FitsType _ v _ ok e (a_binary t) = absurd (ground (arith, ok))
      element-FitsType _ v _ ok e (a_message fs s f) = (
        a_message fs (message_clone init pointer fs (init fs) s)
            (message_clone-Fits fs (init fs) s ok (starts fs) f),
        refl,
      )
      element-FitsType _ v _ ok e (no_message fs) = absurd (ground (arith, e))

      array_clone-AllFit :
          (ty : FieldType) (vs : Values)
          → is_element ty ≡ true
          → AllFit ty vs
          → AllFit ty (array_clone init pointer ty vs)
      array_clone-AllFit ty _ ok (no_more _) = no_more ty
      array_clone-AllFit ty _ ok (element _ v vs e h hs) =
          let (h', e') = element-FitsType ty junk v ok e h in
          element ty (field_clone init pointer ty junk v) (array_clone init pointer ty vs) e' h'
            (array_clone-AllFit ty vs ok hs)

      message_clone-Fits :
          (fs : Fields) (to from : Members)
          → copies_arrays fs ≡ true
          → Starts fs to
          → Fits fs from
          → Fits fs (message_clone init pointer fs to from)
      message_clone-Fits _ _ _ ok no_defaults no_fields = no_fields
      message_clone-Fits _ _ _ ok (default required flagged ty has v fs to e h st)
            (member _ _ _ has' w _ from _ f fr) =
          let (ok_ty, ok_fs) = both (is_member ty) (copies_arrays fs) ok in
          member required flagged ty has (field_clone init pointer ty v w) fs
            (message_clone init pointer fs to from) refl (member-FitsType ty v w ok_ty h f)
            (message_clone-Fits fs to from ok_fs st fr)
      message_clone-Fits _ _ _ ok (default unlabelled flagged ty has v fs to e h st)
            (member _ _ _ has' w _ from _ f fr) =
          let (ok_ty, ok_fs) = both (is_member ty) (copies_arrays fs) ok in
          optional-Fits unlabelled flagged ty has has' v (field_clone init pointer ty v w) fs
            (message_clone init pointer fs to from) refl h (member-FitsType ty v w ok_ty h f)
            (message_clone-Fits fs to from ok_fs st fr)
      message_clone-Fits _ _ _ ok (default optional flagged ty has v fs to e h st)
            (member _ _ _ has' w _ from _ f fr) =
          let (ok_ty, ok_fs) = both (is_member ty) (copies_arrays fs) ok in
          optional-Fits optional flagged ty has has' v (field_clone init pointer ty v w) fs
            (message_clone init pointer fs to from) refl h (member-FitsType ty v w ok_ty h f)
            (message_clone-Fits fs to from ok_fs st fr)
      message_clone-Fits _ _ _ ok (default repeated flagged ty has v fs to e h st) f =
          absurd (ground (arith, e))
      message_clone-Fits _ _ _ ok (unset flagged ty fs to st) (member _ _ _ has' w _ from e f fr) =
          absurd (ground (arith, e))
      message_clone-Fits _ _ _ ok (unset flagged ty fs to st) (unlisted _ _ _ from fr) =
          let (ok_ty, ok_fs) = both (is_element ty) (copies_arrays fs) ok in
          unlisted flagged ty fs (message_clone init pointer fs to from)
            (message_clone-Fits fs to from ok_fs st fr)
      message_clone-Fits _ _ _ ok (unset flagged ty fs to st) (listed _ _ _ _ from (no_more _) fr) =
          let (ok_ty, ok_fs) = both (is_element ty) (copies_arrays fs) ok in
          unlisted flagged ty fs (message_clone init pointer fs to from)
            (message_clone-Fits fs to from ok_fs st fr)
      message_clone-Fits _ _ _ ok (unset flagged ty fs to st)
            (listed _ _ _ _ from (element _ v vs e h hs) fr) =
          let (ok_ty, ok_fs) = both (is_element ty) (copies_arrays fs) ok in
          listed flagged ty (array_clone init pointer ty (cons v vs)) fs
            (message_clone init pointer fs to from)
            (element ty (field_clone init pointer ty junk v) (array_clone init pointer ty vs)
              (element-FitsType ty junk v ok_ty e h).1 (element-FitsType ty junk v ok_ty e h).0
              (array_clone-AllFit ty vs ok_ty hs))
            (message_clone-Fits fs to from ok_fs st fr)

    -- The copy of a message that fits its descriptor fits the descriptor, if no repeated field,
    -- also of the messages in it, is one of bytes or of an enum, and arrays hold no null pointers.
    pub protobuf_c_message_clone-Fits :
        (fs : Fields) (from : Members)
        → copies_arrays fs ≡ true
        → Fits fs from
        → Fits fs (protobuf_c_message_clone init pointer fs from)
    unfolding protobuf_c_message_clone
    protobuf_c_message_clone-Fits fs from ok h =
        message_clone-Fits fs (init fs) from ok (starts fs) h
