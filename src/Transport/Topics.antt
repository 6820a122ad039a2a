-- ===== src/Transport/Topics.antt =====
-- A topic that names a method of the service is led to that method.
use sipecho.Common.{
  ℕ, zero, suc, ◌+◌, true, false, some, List, [], ◌∷◌, ◌++◌, get_elem?, ◌≡◌, ◌≢◌, refl, sym, subst,
  arith, ◌∙◌, ne_eq,
}
use sipecho.Xml.Text.{Bytes}
use sipecho.Transport.{slash, Descriptor, Library, topic_of}
use sipecho.Transport.Command.{split_slash, get_topic, same, find_method, get_method}

abbrev pub IsSlashFree : Bytes → Type 0
IsSlashFree [] = Unit
IsSlashFree (c ∷ t) = (c ≢ slash) × IsSlashFree t

split_slash-append : (a t : Bytes) → IsSlashFree a → split_slash (a ++ (slash ∷ t)) ≡ some (a, t)
unfolding split_slash
split_slash-append [] t h = refl
split_slash-append (c ∷ a) t h =
    rw (split_slash-append a t h.1, ne_eq c slash (λ e. h.0 (sym e))) refl

-- No other name in the list is the same.
abbrev pub Differs : Bytes → List Bytes → Type 0
Differs m [] = Unit
Differs m (x ∷ xs) = (same m x ≡ false) × Differs m xs

abbrev pub AllDiffer : List Bytes → Type 0
AllDiffer [] = Unit
AllDiffer (m ∷ ms) = Differs m ms × AllDiffer ms

same_refl : (m : Bytes) → same m m ≡ true
same_refl [] = refl
same_refl (c ∷ m) = ground (arith, same_refl m)

find_method_none : (m : Bytes) (i : ℕ) (ms : List Bytes) → Differs m ms → find_method m i ms ≡ 0
unfolding find_method
find_method_none m i [] h = refl
find_method_none m i (x ∷ xs) h = rw (find_method_none m (i + 1) xs h.1, h.0) refl

find_method_head :
    (m : Bytes) (k : ℕ) (ms : List Bytes) → Differs m ms → find_method m k (m ∷ ms) ≡ k + 0 + 1
unfolding find_method
find_method_head m k ms h = rw (find_method_none m (k + 1) ms h, same_refl m) (omega arith)

same_name : (m x : Bytes) → some x ≡ some m → x ≡ m
same_name m x h = ground (arith, h)

find_method-some :
    (m : Bytes) (k i : ℕ) (ms : List Bytes)
    → AllDiffer ms
    → get_elem? ms i ≡ some m
    → find_method m k ms ≡ k + i + 1
unfolding find_method
find_method-some m k i [] d h = absurd (ground (arith, h))
find_method-some m k zero (x ∷ xs) d h =
    subst (λ y. find_method y k (x ∷ xs) ≡ k + 0 + 1) (same_name m x h)
      (find_method_head x k xs d.0)
find_method-some m k (suc i) (x ∷ xs) d h =
    rw (find_method-some m (k + 1) i xs d.1 h) (ground arith)

-- A topic made from the service's name, the name of one of its methods, a host and a port is led to
-- that method, counted from 1, where no part but the port has a slash and all names differ.
pub get_method-topic_of :
    (lib : Library) (d : Descriptor) (i : ℕ) (method host : Bytes) (port : ℕ)
    → AllDiffer d.methods
    → get_elem? d.methods i ≡ some method
    → IsSlashFree d.name
    → IsSlashFree method
    → IsSlashFree host
    → get_method d (topic_of lib d.name method host port) ≡ i + 1
unfolding get_method get_topic topic_of
get_method-topic_of lib d i method host port differ h n m s =
    rw (split_slash-append d.name _ n, split_slash-append method _ m, split_slash-append host _ s)
      (find_method-some method 0 i d.methods differ h ∙ omega arith)
