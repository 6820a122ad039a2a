-- ===== src/Sip/Alloc.antt =====
-- Allocation in lib/proto/sip/sip.c. The schedule says of each coming allocation whether it
-- succeeds; after its end all succeed. Also `strdup_null` and `__array__proto`.
pub mod Ample
use mathlib.Core.Option
use sipecho.Common.{
  ℕ, Bool, true, false, if◌then◌else◌, Option, none, some, List, [], ◌∷◌, ◌≡◌, refl, map,
}

abbrev pub Text : Type 0
Text = List ℕ

abbrev pub Sched : Type 0
Sched = List Bool

-- A function that allocates and returns a pointer, `none` being null; a `break` out of its body
-- leads there too.
abbrev pub M : Type 0 → Type 0
M A = Sched → Option A × Sched

abbrev pub continue_with : {A B : Type 0} → Option A × Sched → (A → M B) → Option B × Sched
continue_with (none, s) f = (none, s)
continue_with (some a, s) f = f a s

infixl 5 ◌>>=◌ ◌>>◌
abbrev pub ◌>>=◌ : {A B : Type 0} → M A → (A → M B) → M B
◌>>=◌ m f s = continue_with (m s) f

abbrev pub ◌>>◌ : {B : Type 0} → M (Unit {0}) → M B → M B
m >> k = m >>= λ _. k

abbrev pub pure : {A : Type 0} → A → M A
pure a s = (some a, s)

-- `malloc`, `calloc`: null where the schedule says so.
unfoldable pub malloc : M (Unit {0})
malloc [] = (some tt, [])
malloc (true ∷ s) = (some tt, s)
malloc (false ∷ s) = (none, s)

-- The value of a pointer-valued call that the code goes on with, null or not.
abbrev pub attempt : {A : Type 0} → M A → M (Option A)
attempt m s = let r = m s in (some r.0, r.1)

-- `strdup_null` with the copying function `copy`; a failed copy is not noticed.
unfoldable pub dup_by : (Text → Text) → Option Text → M (Option Text)
unfolding malloc
dup_by copy none = pure none
dup_by copy (some t) = attempt (malloc >> pure (copy t))

-- `strdup_null`
unfoldable pub dup : Option Text → M (Option Text)
unfolding dup_by
dup = dup_by (λ t. t)

-- `p->f = strdup_null(f); if (f && !p->f) break;`
unfoldable pub dup_or_break : Option Text → M (Option Text)
unfolding malloc
dup_or_break none = pure none
dup_or_break (some t) = malloc >> pure (some t)

-- A conversion that begins with `if (!q) return NULL;`, and whose result is not checked.
unfoldable pub null_or : {X Y : Type 0} → (X → M Y) → Option X → M (Option Y)
null_or call none = pure none
null_or call (some x) = attempt (call x)

abbrev pub after_element :
    {Y : Type 0} → Option Y × Sched → M (List Y × Bool) → Option (List Y × Bool) × Sched
after_element (none, s) more = (some ([], false), s)
after_element (some y, s) more = continue_with (more s) (λ r. pure (y ∷ r.0, r.1))

-- The loop of `__array__proto`: with -1 (false) what was converted before stays in the array.
unfoldable pub elements : {X Y : Type 0} → (X → M Y) → List X → M (List Y × Bool)
elements call [] s = (some ([], true), s)
elements call (x ∷ xs) s = after_element (call x s) (elements call xs)

abbrev pub or_empty : {Y : Type 0} → Option (List Y × Bool) → List Y × Bool
or_empty none = ([], false)
or_empty (some r) = r

-- `__array__proto`: the array, and true for 0 and false for -1.
unfoldable pub array : {X Y : Type 0} → (X → M Y) → List X → M (List Y × Bool)
unfolding elements malloc
array call [] = pure ([], true)
array call (x ∷ xs) = do r ← attempt (malloc >> elements call (x ∷ xs)); pure (or_empty r)

abbrev pub if_whole : {Y : Type 0} → List Y × Bool → M (List Y)
if_whole (ys, true) s = (some ys, s)
if_whole (ys, false) s = (none, s)

-- `if (array__proto(l, p, f)) break;`
unfoldable pub array_or_break : {X Y : Type 0} → (X → M Y) → List X → M (List Y)
unfolding array
array_or_break call xs = do r ← array call xs; if_whole r

-- `array__proto(l, p, f);` with the answer ignored.
unfoldable pub array_any : {X Y : Type 0} → (X → M Y) → List X → M (List Y)
unfolding array
array_any call xs = do r ← array call xs; pure r.0
