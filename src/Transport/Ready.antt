-- ===== src/Transport/Ready.antt =====
-- A transport is ready when the broker has granted as many subscriptions as there are methods.
use sipecho.Common.{
  ℕ, zero, suc, ◌+◌, ◌^◌, ◌<◌, ◌≤◌, Bool, true, false, ltb, leb, ◌==◌, if◌then◌else◌, ◌||◌, ◌↔◌,
  Option, none, some, List, [], ◌∷◌, length, ◌≡◌, refl, sym, arith, Bool-cases, inl, inr,
}
use sipecho.Xml.Text.{Bytes}
use sipecho.Transport.{
  ℤ, pos, negsuc, Packed, packed, too_small, failed, Response, connack, suback, publish, quiet,
  unknown, Unpacked, unpacked, not_unpacked, Descriptor, Transport, transport_new, World, Library,
  packet_id, dispatch, or_zero, begin, end, ping, subscribe_one, unless_returned, subscribe_from,
  subscribe, closed_if, published, invoke, topic_of,
}
use sipecho.Transport.Command.{
  get_method, delivered, input_for, input, granted, ack_one, ack_all, connected, connack_by,
  respond, or_length, commanded, command, Call, begin_call, subscribe_call, ping_call, end_call,
  command_call, invoke_call, call, calls,
}

-- Readiness is what the count of granted subscriptions says.
abbrev pub IsReadyRight : Descriptor → Transport → Type 0
IsReadyRight d t = (t.descriptor ≡ d) × (t.ready ≡ leb (length d.methods) t.subscribes)

granted_ready :
    (n k : ℕ) (ready : Bool)
    → ready ≡ leb n k
    → (if k + 1 == n then true else ready) ≡ leb n (k + 1)
granted_ready n k ready h = ground arith

granted-IsReadyRight :
    (lib : Library) (d : Descriptor) (t : Transport)
    → IsReadyRight d t
    → IsReadyRight d (granted lib t)
granted-IsReadyRight lib d t h =
    (h.0, rw h.0 (granted_ready (length d.methods) t.subscribes t.ready h.1))

-- How many return codes a response has, and those that a sequence of calls is given.
abbrev pub codes_of : Response → ℕ
codes_of (suback codes) = length codes
codes_of r = 0

abbrev pub codes_in : Unpacked → ℕ
codes_in (unpacked len response) = codes_of response
codes_in (not_unpacked e) = 0

abbrev pub codes_by : Library → Call → ℕ
codes_by lib (command_call buf) = codes_in (lib.unpack_response buf)
codes_by lib c = 0

abbrev pub all_codes : Library → List Call → ℕ
all_codes lib [] = 0
all_codes lib (c ∷ cs) = codes_by lib c + all_codes lib cs

module _ (lib : Library) (d : Descriptor) (some_method : 1 ≤ length d.methods) where
  -- Readiness is right, and the count is not above a bound.
  abbrev pub Right : ℕ → World → Type 0
  Right n w = IsReadyRight d w.transport × (w.transport.subscribes ≤ n)

  raised : {n : ℕ} (more : ℕ) (w : World) → Right n w → Right (n + more) w
  raised more w h = (h.0, omega (arith, h.1))

  dispatch-Right : {n : ℕ} (w : World) (p : Packed) → Right n w → Right n (dispatch lib w p).1
  unfolding dispatch
  dispatch-Right w (packed buf) h = h
  dispatch-Right w too_small h = h
  dispatch-Right w (failed e) h = h

  or_zero-Right : {n : ℕ} (r : Option ℤ × World) → Right n r.1 → Right n (or_zero lib r).1
  or_zero-Right (none, w) h = h
  or_zero-Right (some a, w) h = h

  subscribe_one-Right :
      {n : ℕ} (i : ℕ) (method : Bytes) (w : World)
      → Right n w
      → Right n (subscribe_one lib i method w).1
  subscribe_one-Right i method w h =
      elim (Bool-cases (
        leb 256 (
          length
            (topic_of lib w.transport.descriptor.name method w.transport.host w.transport.port)))) [
              | inl b ↦ rw b h
              | inr b ↦ rw b (dispatch-Right w _ h)
            ]

  unless_returned-Right :
      {n : ℕ} (more : ℕ) (r : Option ℤ × World) (k : World → Option ℤ × World)
      → ((w : World) → Right n w → Right (n + more) (k w).1)
      → Right n r.1
      → Right (n + more) (unless_returned lib r k).1
  unless_returned-Right more (none, w) k keeps h = keeps w h
  unless_returned-Right more (some a, w) k keeps h = raised more w h

  subscribe_from-Right :
      {n : ℕ} (i : ℕ) (methods : List Bytes) (w : World)
      → Right n w
      → Right n (subscribe_from lib i methods w).1
  unfolding subscribe_from
  subscribe_from-Right i [] w h = h
  subscribe_from-Right {n = n} i (method ∷ methods) w h =
      let o =
        unless_returned-Right {n = n} 0 (subscribe_from lib (i + 1) methods w)
          (subscribe_one lib i method)
          (λ w' h'. raised 0 (subscribe_one lib i method w').1 (subscribe_one-Right i method w' h'))
          (subscribe_from-Right (i + 1) methods w h) in
      (o.0, omega (arith, o.1))

  subscribe-Right : {n : ℕ} (w : World) → Right n w → Right n (subscribe lib w).1
  unfolding subscribe
  subscribe-Right w h = or_zero-Right _ (subscribe_from-Right 0 w.transport.descriptor.methods w h)

  ack_one-Right : {n : ℕ} (code : ℕ) (w : World) → Right n w → Right (n + 1) (ack_one lib code w).1
  ack_one-Right code w h = elim (Bool-cases (leb code 2)) [
    | inl b ↦ rw b (granted-IsReadyRight lib d w.transport h.0, omega (arith, h.1))
    | inr b ↦ rw b (raised 1 w h)
  ]

  ack_all-Right :
      {n : ℕ} (codes : List ℕ) (w : World)
      → Right n w
      → Right (n + length codes) (ack_all lib codes w).1
  unfolding ack_all
  ack_all-Right [] w h = raised 0 w h
  ack_all-Right (code ∷ codes) w h =
      let o =
        unless_returned-Right 1 (ack_all lib codes w) (ack_one lib code) (ack_one-Right code)
          (ack_all-Right codes w h) in
      (o.0, omega (arith, o.1))

  connected-Right : {n : ℕ} (r : ℤ × World) → Right n r.1 → Right n (connected lib r).1
  connected-Right (pos n, w) h = h
  connected-Right (negsuc n, w) h = h

  unready : leb (length d.methods) 0 ≡ false
  unready = ground (arith, some_method)

  connack_by-Right : {n : ℕ} (code : ℕ) (w : World) → Right n w → Right n (connack_by lib code w).1
  connack_by-Right code w h = elim (Bool-cases (code == 0)) [
    | inl b ↦ rw b (connected-Right _ (subscribe-Right _ ((h.0.0, sym unready), omega arith)))
    | inr b ↦ elim (Bool-cases (leb code 5)) [ inl c ↦ rw (b, c) h | inr c ↦ rw (b, c) h ]
  ]

  input_for-Right :
      {n : ℕ} (w : World) (message : Bytes) (i : ℕ)
      → Right n w
      → Right n (input_for lib w message i)
  input_for-Right w message zero h = h
  input_for-Right {n = n} w message (suc i) h =
      elim (lib.unpack_message i message) as (λ o. Right n (delivered lib w i o)) [
        | none ↦ h
        | some m ↦ h
      ]

  respond-Right :
      {n : ℕ} (r : Response) (w : World) → Right n w → Right (n + codes_of r) (respond lib r w).1
  unfolding respond input
  respond-Right (connack code) w h = connack_by-Right code w (raised 0 w h)
  respond-Right (suback codes) w h = ack_all-Right codes w h
  respond-Right (publish topic message) w h =
      input_for-Right w message (get_method w.transport.descriptor topic) (raised 0 w h)
  respond-Right quiet w h = raised 0 w h
  respond-Right unknown w h = raised 0 w h

  or_length-Right :
      {n : ℕ} (len : ℕ) (r : Option ℤ × World) → Right n r.1 → Right n (or_length lib len r).1
  or_length-Right len (none, w) h = h
  or_length-Right len (some a, w) h = h

  commanded-Right :
      {n : ℕ} (w : World) (u : Unpacked) → Right n w → Right (n + codes_in u) (commanded lib w u).1
  commanded-Right w (not_unpacked e) h = raised 0 w h
  commanded-Right w (unpacked len response) h = elim (Bool-cases (len == 0 || ltb 32767 len)) [
    | inl b ↦ rw b (raised (codes_of response) w h)
    | inr b ↦ rw b (or_length-Right len (respond lib response w) (respond-Right response w h))
  ]

  closed_if-Right :
      {n : ℕ} (closure : Bool) (w : World) → Right n w → Right n (closed_if lib closure w)
  closed_if-Right true w h = h
  closed_if-Right false w h = h

  published-Right :
      {n : ℕ} (closure : Bool) (r : Option ℤ × World)
      → Right n r.1
      → Right n (published lib closure r)
  published-Right closure (none, w) h = h
  published-Right closure (some a, w) h = closed_if-Right closure w h

  invoke-Right :
      {n : ℕ} (w : World) (method : Bytes) (closure : Bool) (message : Bytes)
      → Right n w
      → Right n (invoke lib w method closure message)
  unfolding invoke packet_id
  invoke-Right w method closure [] h = closed_if-Right closure w h
  invoke-Right w method closure (c ∷ message) h = published-Right closure _ (dispatch-Right _ _ h)

  call-Right :
      {n : ℕ} (c : Call) (w : World) → Right n w → Right (n + codes_by lib c) (call lib c w)
  unfolding begin end ping command
  call-Right (begin_call port) w h = or_zero-Right _ (dispatch-Right _ _ (raised 0 w h))
  call-Right subscribe_call w h = subscribe-Right w (raised 0 w h)
  call-Right ping_call w h = or_zero-Right _ (dispatch-Right _ _ (raised 0 w h))
  call-Right end_call w h = or_zero-Right _ (dispatch-Right _ _ (raised 0 w h))
  call-Right (command_call buf) w h = commanded-Right w (lib.unpack_response buf) h
  call-Right (invoke_call method closure message) w h =
      invoke-Right w method closure message (raised 0 w h)

  pub calls-Right :
      (cs : List Call) (w : World) (n : ℕ)
      → Right n w
      → Right (n + all_codes lib cs) (calls lib cs w)
  calls-Right [] w n h = raised 0 w h
  calls-Right (c ∷ cs) w n h =
      let o = calls-Right cs (call lib c w) (n + codes_by lib c) (call-Right c w h) in
      (o.0, omega (arith, o.1))

abbrev pub created : Transport → World
created t = record { transport = t; log = [] }

pub transport_new-IsReadyRight :
    (d : Descriptor) (to user password host : Bytes) (flags alive : ℕ)
    → 1 ≤ length d.methods
    → IsReadyRight d (transport_new d to user password host flags alive)
transport_new-IsReadyRight d to user password host flags alive h = (refl, sym (ground (arith, h)))

leb_iff : (a b : ℕ) (ready : Bool) → ready ≡ leb a b → (ready ≡ true) ↔ (a ≤ b)
leb_iff a b ready h = ground (arith, h)

-- After any sequence of calls of a new transport's functions, with any answers of the callbacks and
-- any responses, those that acknowledge subscriptions having fewer than 2^31 return codes in all:
-- the count of granted subscriptions, which an accepted connection sets to 0, fits an int, and a
-- service with a method is ready exactly when it is at least the number of methods.
pub calls_ready :
    (lib : Library) (d : Descriptor) (to user password host : Bytes) (flags alive : ℕ)
    (cs : List Call)
    → 1 ≤ length d.methods
    → all_codes lib cs < 2 ^ 31
    → let t =
        (calls lib cs (created (transport_new d to user password host flags alive))).transport in
      ((t.ready ≡ true) ↔ (length d.methods ≤ t.subscribes)) × (t.subscribes < 2 ^ 31)
calls_ready lib d to user password host flags alive cs h few =
    let zero_le : 0 ≤ 0 = omega arith in
    let right =
      calls-Right lib d h cs (created (transport_new d to user password host flags alive)) 0
        (transport_new-IsReadyRight d to user password host flags alive h, zero_le) in
    (leb_iff (length d.methods) _ _ right.0.1, omega (arith, right.1, few))
