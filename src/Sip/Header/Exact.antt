-- ===== src/Sip/Header/Exact.antt =====
-- What the conversions of header values give where allocations fail: whatever the schedule, an
-- answer that is not null is a copy. A text that the code checks after copying it is the same; one
-- that it does not check may have become null.
use sipecho.Common.{Bool, true, false, Option, none, some, List, [], ◌∷◌, ◌≡◌, refl, ◌⊎◌, inl, inr}
use sipecho.Sip.Alloc.{
  Text, Sched, M, continue_with, ◌>>=◌, pure, malloc, dup_by, dup, dup_or_break, elements, array,
  array_or_break, after_element, or_empty, if_whole,
}
use sipecho.Sip.Osip
use sipecho.Sip.Proto
use sipecho.Sip.Header.{pair_new, pair_proto, uri_new, uri_proto}

-- Some allocation of the schedule fails.
abbrev pub Fails : Sched → Type 0
Fails [] = ⊥
Fails (true ∷ s) = Fails s
Fails (false ∷ s) = Unit

-- A text, or null where there was no memory for it.
abbrev pub SameOrNull : Option Text → Option Text → Type 0
SameOrNull t p = (p ≡ t) ⊎ (p ≡ none)

abbrev pub EachCopied : {X Y : Type 0} → (X → Y → Type 0) → List X → List Y → Type 0
EachCopied R [] [] = Unit
EachCopied R (x ∷ xs) (y ∷ ys) = R x y × EachCopied R xs ys
EachCopied R _ _ = ⊥

pub record PairCopied (q : Osip.Param) (p : Proto.Pair) : Type 0 where
  pub name : SameOrNull q.gname p.name
  pub value : SameOrNull q.gvalue p.value

pub record UriCopied (q : Osip.Uri) (p : Proto.Uri) : Type 0 where
  pub scheme : p.scheme ≡ q.scheme
  pub username : p.username ≡ q.username
  pub password : p.password ≡ q.password
  pub host : p.host ≡ q.host
  pub port : p.port ≡ q.port
  pub other : p.other ≡ q.string
  pub url_params : EachCopied PairCopied q.url_params p.url_params
  pub url_headers : EachCopied PairCopied q.url_headers p.url_headers

-- The texts of a protocol buffer's uri, before the parameters are filled in.
record TextsCopied (q : Osip.Uri) (p : Proto.Uri) : Type 0 where
  scheme : p.scheme ≡ q.scheme
  username : p.username ≡ q.username
  password : p.password ≡ q.password
  host : p.host ≡ q.host
  port : p.port ≡ q.port
  other : p.other ≡ q.string

-- `F` says that some allocation has failed.
module _ (F : Type 0) where
  -- The answer of a conversion: null only after a failure, else with a predicate; and a failure of
  -- what is left of the schedule is one, too.
  abbrev pub Post : {A : Type 0} → (A → Type 0) → Option A × Sched → Type 0
  Post P (none, s) = F
  Post P (some a, s) = P a × (Fails s → F)

  abbrev pub Gives : {A : Type 0} → (A → Type 0) → M A → Type 0
  Gives P m = (s : Sched) → (Fails s → F) → Post P (m s)

  continue_with-Post :
      {A B : Type 0} (P : A → Type 0) (Q : B → Type 0) (r : Option A × Sched) (f : A → M B)
      → Post P r
      → ((a : A) → P a → Gives Q (f a))
      → Post Q (continue_with r f)
  continue_with-Post P Q (none, s) f h g = h
  continue_with-Post P Q (some a, s) f h g = g a h.0 s h.1

  bind-Gives :
      {A B : Type 0} (P : A → Type 0) (Q : B → Type 0) (m : M A) (f : A → M B)
      → Gives P m
      → ((a : A) → P a → Gives Q (f a))
      → Gives Q (m >>= f)
  bind-Gives P Q m f h g s k = continue_with-Post P Q (m s) f (h s k) g

  malloc-Gives : Gives (λ u. Unit) malloc
  unfolding malloc
  malloc-Gives [] k = (tt, k)
  malloc-Gives (true ∷ s) k = (tt, k)
  malloc-Gives (false ∷ s) k = k tt

  dup-Gives : (t : Option Text) → Gives (SameOrNull t) (dup t)
  unfolding dup dup_by malloc
  dup-Gives none s k = (inl refl, k)
  dup-Gives (some t) [] k = (inl refl, k)
  dup-Gives (some t) (true ∷ s) k = (inl refl, k)
  dup-Gives (some t) (false ∷ s) k = (inr refl, λ _. k tt)

  dup_or_break-Gives : (t : Option Text) → Gives (λ p. p ≡ t) (dup_or_break t)
  unfolding dup_or_break malloc
  dup_or_break-Gives none s k = (refl, k)
  dup_or_break-Gives (some t) [] k = (refl, k)
  dup_or_break-Gives (some t) (true ∷ s) k = (refl, k)
  dup_or_break-Gives (some t) (false ∷ s) k = k tt

  -- What the loop over an array gives: with true the whole array, with false a failure.
  abbrev Whole : {X Y : Type 0} → (X → Y → Type 0) → List X → List Y × Bool → Type 0
  Whole R xs (ys, true) = EachCopied R xs ys
  Whole R xs (ys, false) = F

  module _ {X Y : Type 0} (R : X → Y → Type 0) (call : X → M Y)
      (h : (x : X) → Gives (R x) (call x)) where
    cons-Gives :
        (x : X) (y : Y) (xs : List X) (r : List Y × Bool)
        → R x y
        → Whole R xs r
        → Gives (Whole R (x ∷ xs)) (pure (y ∷ r.0, r.1))
    cons-Gives x y xs (ys, true) a b s k = ((a, b), k)
    cons-Gives x y xs (ys, false) a b s k = (b, k)

    after_element-Post :
        (x : X) (xs : List X) (r : Option Y × Sched) (more : M (List Y × Bool))
        → Post (R x) r
        → Gives (Whole R xs) more
        → Post (Whole R (x ∷ xs)) (after_element r more)
    after_element-Post x xs (none, s) more a g = (a, λ _. a)
    after_element-Post x xs (some y, s) more a g =
        bind-Gives (Whole R xs) (Whole R (x ∷ xs)) more (λ r. pure (y ∷ r.0, r.1)) g
          (λ r b. cons-Gives x y xs r a.0 b) s a.1

    elements-Gives : (xs : List X) → Gives (Whole R xs) (elements call xs)
    unfolding elements
    elements-Gives [] s k = (tt, k)
    elements-Gives (x ∷ xs) s k =
        after_element-Post x xs (call x s) (elements call xs) (h x s k) (elements-Gives xs)

    or_empty-Post :
        (x : X) (xs : List X) (r : Option (List Y × Bool) × Sched)
        → Post (Whole R (x ∷ xs)) r
        → Post (Whole R (x ∷ xs)) (some (or_empty r.0), r.1)
    or_empty-Post x xs (none, s) a = (a, λ _. a)
    or_empty-Post x xs (some o, s) a = a

    array-Gives : (xs : List X) → Gives (Whole R xs) (array call xs)
    unfolding array
    array-Gives [] s k = (tt, k)
    array-Gives (x ∷ xs) s k = or_empty-Post x xs ((malloc >>= λ _. elements call (x ∷ xs)) s) (
        bind-Gives (λ u. Unit) (Whole R (x ∷ xs)) malloc (λ _. elements call (x ∷ xs)) malloc-Gives
          (λ u t. elements-Gives (x ∷ xs)) s k)

    if_whole-Gives :
        (xs : List X) (r : List Y × Bool) → Whole R xs r → Gives (EachCopied R xs) (if_whole r)
    if_whole-Gives xs (ys, true) a s k = (a, k)
    if_whole-Gives xs (ys, false) a s k = a

    array_or_break-Gives : (xs : List X) → Gives (EachCopied R xs) (array_or_break call xs)
    unfolding array_or_break
    array_or_break-Gives xs =
        bind-Gives (Whole R xs) (EachCopied R xs) (array call xs) if_whole (array-Gives xs)
          (if_whole-Gives xs)

  -- Steps of a conversion, with what each gives.
  malloc-then : {B : Type 0} (Q : B → Type 0) (f : M B) → Gives Q f → Gives Q (malloc >>= λ _. f)
  malloc-then Q f g = bind-Gives (λ u. Unit) Q malloc (λ _. f) malloc-Gives (λ u h. g)

  dup-then :
      {B : Type 0} (Q : B → Type 0) (t : Option Text) (f : Option Text → M B)
      → ((p : Option Text) → SameOrNull t p → Gives Q (f p))
      → Gives Q (dup t >>= f)
  dup-then Q t f = bind-Gives (SameOrNull t) Q (dup t) f (dup-Gives t)

  dup_or_break-then :
      {B : Type 0} (Q : B → Type 0) (t : Option Text) (f : Option Text → M B)
      → ((p : Option Text) → p ≡ t → Gives Q (f p))
      → Gives Q (dup_or_break t >>= f)
  dup_or_break-then Q t f = bind-Gives (λ p. p ≡ t) Q (dup_or_break t) f (dup_or_break-Gives t)

  pair_proto-Gives : (q : Osip.Param) → Gives (PairCopied q) (pair_proto q)
  unfolding pair_proto pair_new
  pair_proto-Gives q = malloc-then _ _ (
      dup-then _ q.gname _
        (λ n a. dup-then _ q.gvalue _ (λ v b s k. (record { name = a; value = b }, k))))

  pairs-then :
      {B : Type 0} (Q : B → Type 0) (qs : List Osip.Param) (f : List Proto.Pair → M B)
      → ((ps : List Proto.Pair) → EachCopied PairCopied qs ps → Gives Q (f ps))
      → Gives Q (array_or_break pair_proto qs >>= f)
  pairs-then Q qs f =
      bind-Gives (EachCopied PairCopied qs) Q (array_or_break pair_proto qs) f
        (array_or_break-Gives PairCopied pair_proto pair_proto-Gives qs)

  uri_new-Gives :
      (q : Osip.Uri)
      → Gives (TextsCopied q) (uri_new q.scheme q.username q.password q.host q.port q.string)
  unfolding uri_new
  uri_new-Gives q = malloc-then _ _ (
      dup_or_break-then _ q.scheme _ (λ p1 h1. dup_or_break-then _ q.username _ (λ p2 h2.
        dup_or_break-then _ q.password _ (λ p3 h3. dup_or_break-then _ q.host _ (λ p4 h4.
          dup_or_break-then _ q.port _ (λ p5 h5. dup_or_break-then _ q.string _ (λ p6 h6 s k. (
            record { scheme = h1; username = h2; password = h3; host = h4; port = h5; other = h6 },
            k,
          ))))))))

-- Whatever allocations fail, `sip__type__uri__proto` answers null, and then some allocation has
-- failed, or a uri with all six texts of the parser's and with as many parameters and headers, in
-- order; of these a name or value is the same, or null where its copy failed.
pub uri_proto-UriCopied : (q : Osip.Uri) (s : Sched) → Post (Fails s) (UriCopied q) (uri_proto q s)
unfolding uri_proto
uri_proto-UriCopied q s =
    let F = Fails s in
    bind-Gives F (TextsCopied q) (UriCopied q)
      (uri_new q.scheme q.username q.password q.host q.port q.string) _ (uri_new-Gives F q)
      (λ u t. pairs-then F (UriCopied q) q.url_headers _ (λ hs a.
        pairs-then F (UriCopied q) q.url_params _ (λ ps b s k. (
          record {
            scheme = t.scheme;
            username = t.username;
            password = t.password;
            host = t.host;
            port = t.port;
            other = t.other;
            url_params = b;
            url_headers = a;
          },
          k,
        ))))
      s (λ h. h)
