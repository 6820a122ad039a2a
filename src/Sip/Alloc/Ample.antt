-- ===== src/Sip/Alloc/Ample.antt =====
-- Conversions while no allocation fails: the schedule is empty.
use mathlib.Core.Option
use sipecho.Common.{true, Option, none, some, List, [], ◌∷◌, ◌≡◌, refl, map}
use sipecho.Sip.Alloc.{
  Text, M, malloc, dup_by, dup, dup_or_break, null_or, elements, array, array_or_break, array_any,
}

-- Every element of a list, and the value of an option, satisfies a predicate.
abbrev pub All : {Y : Type 0} → (Y → Type 0) → List Y → Type 0
All P [] = Unit
All P (y ∷ ys) = P y × All P ys

abbrev pub Each : {Y : Type 0} → (Y → Type 0) → Option Y → Type 0
Each P none = Unit
Each P (some y) = P y

pub malloc_ample : malloc [] ≡ (some tt, [])
unfolding malloc
malloc_ample = refl

pub dup_ample : (t : Option Text) → dup t [] ≡ (some t, [])
unfolding dup dup_by malloc
dup_ample none = refl
dup_ample (some t) = refl

pub dup_or_break_ample : (t : Option Text) → dup_or_break t [] ≡ (some t, [])
unfolding dup_or_break malloc
dup_or_break_ample none = refl
dup_or_break_ample (some t) = refl

-- A copy that takes back what `back` has done to the text.
pub dup_by_ample :
    (copy back : Text → Text) (P : Text → Type 0)
    → ((t : Text) → P t → copy (back t) ≡ t)
    → (t : Option Text) → Each P t
    → dup_by copy (Option.map back t) [] ≡ (some t, [])
unfolding dup_by malloc
dup_by_ample copy back P round none h = refl
dup_by_ample copy back P round (some t) h = rw (round t h)

module _ {X Y : Type 0} (call : X → M Y) (back : Y → X) (P : Y → Type 0)
    (round : (y : Y) → P y → call (back y) [] ≡ (some y, [])) where
  pub null_or_ample : (o : Option Y) → Each P o → null_or call (Option.map back o) [] ≡ (some o, [])
  unfolding null_or
  null_or_ample none h = refl
  null_or_ample (some y) h = rw (round y h)

  elements_ample : (ys : List Y) → All P ys → elements call (map back ys) [] ≡ (some (ys, true), [])
  unfolding elements
  elements_ample [] h = refl
  elements_ample (y ∷ ys) h = rw (round y h.0, elements_ample ys h.1)

  array_ample : (ys : List Y) → All P ys → array call (map back ys) [] ≡ (some (ys, true), [])
  unfolding array malloc
  array_ample [] h = refl
  array_ample (y ∷ ys) h = rw (elements_ample (y ∷ ys) h)

  pub array_or_break_ample :
      (ys : List Y) → All P ys → array_or_break call (map back ys) [] ≡ (some ys, [])
  unfolding array_or_break
  array_or_break_ample ys h = rw (array_ample ys h)

  pub array_any_ample : (ys : List Y) → All P ys → array_any call (map back ys) [] ≡ (some ys, [])
  unfolding array_any
  array_any_ample ys h = rw (array_ample ys h)
