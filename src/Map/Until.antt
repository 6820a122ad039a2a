-- ===== src/Map/Until.antt =====
-- `map_until` and `map_pop_back_when`: removal from the back by a test on the items.
use sipecho.Common.{
  ℕ, zero, suc, Bool, true, false, if◌then◌else◌, ==_refl, ne_eq, Bool-cases, Option-cases, List,
  [], ◌∷◌, ◌++◌, ◌≡◌, ◌∙◌, refl, ap, inl, inr, arith, Option, none, some, In, length,
}
use sipecho.Map.{Node, Map, last}
use sipecho.Map.Update.{
  unlink, map_remove, remove_some, remove_while, last_if, map_until, last_when, map_pop_back_when,
}
use sipecho.Map.Invariant.{Distinct, IsMap}
use sipecho.Map.Keying.{Unused-In}
use sipecho.Map.Push.{items}
use sipecho.Map.Remove.{map_remove-IsMap, length-unlink}
use sipecho.Map.Take.{last-In, unlink-last}

module _ {A : Type 0} (test : A → Bool) where
  -- Every node of a list fails the test; every item of a list passes it.
  abbrev pub AllFail : List (Node A) → Type 0
  AllFail [] = Unit
  AllFail (n ∷ ns) = (test n.item ≡ false) × AllFail ns

  abbrev pub AllPass : List A → Type 0
  AllPass [] = Unit
  AllPass (a ∷ bs) = (test a ≡ true) × AllPass bs

  -- What `map_pop_back_when` answers: the last item that passes, or null if none does.
  abbrev pub LastPassing : List (Node A) → Option (Node A) → Type 0
  LastPassing ns none = AllFail ns
  LastPassing ns (some n) =
      (before : List (Node A)) × (after : List (Node A)) × (ns ≡ before ++ (n ∷ after))
      × (test n.item ≡ true)
      × AllFail after

  last_when-LastPassing : (ns : List (Node A)) → LastPassing ns (last_when test ns)
  last_when-LastPassing [] = tt
  last_when-LastPassing (n ∷ ns) = by_rest (last_when test ns) (last_when-LastPassing ns)
    where
      by_rest :
          (o : Option (Node A))
          → LastPassing ns o
          → LastPassing
              (n ∷ ns)
              (elim o [ some m ↦ some m | none ↦ if test n.item then some n else none ])
      by_rest (some m) (before, after, e, p, h) = (n ∷ before, after, ap (◌∷◌ n) e, p, h)
      by_rest none h = elim (Bool-cases (test n.item)) [
        | inl e ↦ rw e ([], ns, refl, e, h)
        | inr e ↦ rw e (e, h)
      ]

  In-middle : (before after : List (Node A)) (n : Node A) → In n (before ++ (n ∷ after))
  In-middle [] after n = inl refl
  In-middle (x ∷ before) after n = inr (In-middle before after n)

  unlink-middle :
      (before after : List (Node A)) (n : Node A)
      → Distinct (before ++ (n ∷ after))
      → unlink n.address (before ++ (n ∷ after)) ≡ before ++ after
  unlink-middle [] after n d = rw (==_refl n.address) refl
  unlink-middle (x ∷ before) after n d =
      rw
        (ne_eq x.address n.address
          (Unused-In x.address (before ++ (n ∷ after)) n d.0 (In-middle before after n)))
        (ap (◌∷◌ x) (unlink-middle before after n d.1))

  -- What `map_pop_back_when` leaves and answers.
  abbrev pub PoppedWhen : Map A → Map A × Option A → Type 0
  PoppedWhen m (m', none) = (m' ≡ m) × AllFail m.nodes
  PoppedWhen m (m', some a) =
      IsMap m'
      × (before : List (Node A)) × (n : Node A) × (after : List (Node A)) × (m.nodes
          ≡ before ++ (n ∷ after))
      × (m'.nodes ≡ before ++ after)
      × (n.item ≡ a)
      × (test a ≡ true)
      × AllFail after

  remove_some-PoppedWhen :
      (m : Map A) (o : Option (Node A))
      → IsMap m
      → LastPassing m.nodes o
      → PoppedWhen m (remove_some m o)
  unfolding map_remove
  remove_some-PoppedWhen m none v h = (refl, h)
  remove_some-PoppedWhen m (some n) v (before, after, e, p, h) = (
    map_remove-IsMap m n v (rw e (In-middle before after n)),
    before,
    n,
    after,
    e,
    rw e (unlink-middle before after n (rw e at v.distinct)),
    refl,
    p,
    h,
  )

  -- On a well-formed map, `map_pop_back_when` removes the last item that passes the test: all after
  -- it fail, and the other nodes stay in order in a well-formed map. If it answers null, no item
  -- passes and the map is as before.
  pub map_pop_back_when-PoppedWhen : (m : Map A) → IsMap m → PoppedWhen m (map_pop_back_when m test)
  unfolding map_pop_back_when
  map_pop_back_when-PoppedWhen m v =
      remove_some-PoppedWhen m (last_when test m.nodes) v (last_when-LastPassing m.nodes)

  -- The items as they were before the freed ones were taken off the back.
  abbrev pub put_back : List A → List A → List A
  put_back bs [] = bs
  put_back bs (a ∷ freed) = put_back bs freed ++ (a ∷ [])

  abbrev pub Until : Map A → Map A × List A → Type 0
  Until m (m', freed) =
      IsMap m'
      × (items m ≡ put_back (items m') freed)
      × AllPass freed
      × (last_if test m'.nodes ≡ none)

  last_if-last :
      (ns : List (Node A)) (n : Node A)
      → last_if test ns ≡ some n
      → (last ns ≡ some n) × (test n.item ≡ true)
  last_if-last ns n = checked (last ns) refl
    where
      checked :
          (o : Option (Node A))
          → last ns ≡ o
          → elim o [ none ↦ none | some x ↦ if test x.item then some x else none ] ≡ some n
          → (last ns ≡ some n) × (test n.item ≡ true)
      checked none q h = cc
      checked (some x) q h = elim (Bool-cases (test x.item)) [
        | inl p ↦ let same : x ≡ n = cc (rw p at h) in (q ∙ ap some same, rw same at p)
        | inr p ↦ cc (rw p at h)
      ]

  remove_while-Until :
      (rounds : ℕ) (m : Map A)
      → IsMap m
      → length m.nodes ≡ rounds
      → Until m (remove_while rounds (last_if test) m)
  unfolding remove_while map_remove
  remove_while-Until zero m v e = let empty = no_nodes m.nodes e in (v, refl, tt, rw empty refl)
    where
      no_nodes : (ns : List (Node A)) → length ns ≡ 0 → ns ≡ []
      no_nodes [] h = refl
      no_nodes (n ∷ ns) h = absurd (omega (arith, h))
  remove_while-Until (suc rounds) m v e = elim (Option-cases (last_if test m.nodes)) [
    | inl q ↦ rw (q, remove_while) (v, refl, tt, q)
    | inr (n, q) ↦
        let (at_end, passes) = last_if-last m.nodes n q in
        let here = last-In m.nodes n at_end in
        let (w, same, all, stop) =
          remove_while-Until rounds (map_remove m n).0 (map_remove-IsMap m n v here)
            (omega (arith, e, length-unlink m.nodes n here)) in
        rw (q, remove_while)
          (
            w,
            unlink-last m.nodes n v.distinct at_end ∙ ap (λ bs. bs ++ (n.item ∷ [])) same,
            (passes, all),
            stop,
          )
  ]

  -- On a well-formed map, `map_until` frees items from the back, each of which passes the test, and
  -- stops at an empty map or at a last item that fails; the other items stay in order in a
  -- well-formed map. The rounds suffice.
  pub map_until-Until : (m : Map A) → IsMap m → Until m (map_until m test)
  unfolding map_until
  map_until-Until m v = remove_while-Until (length m.nodes) m v refl
