-- ===== src/Sip/Reason.antt =====
-- lib/proto/sip/sip.c: the table of reason phrases and `sip_reason_by_code`. The status codes that
-- the program looks up are not negative; the row that ends the table is the end of the list.
use Prim.Native.String.{String}
use sipecho.Common.{
  ℕ, ◌<◌, ◌==◌, Bool, true, ◌&&◌, ltb, lt_ne, ltb→lt, if◌then◌else◌, List, [], ◌∷◌, ◌≡◌, refl, inl,
  inr, In, arith, ==_refl,
}

abbrev pub Reasons : Type 0
Reasons = List (ℕ × String)

abbrev pub reasons : Reasons
reasons =
    (100, "Trying")
    ∷ (180, "Ringing")
    ∷ (181, "Call is Being Forwarded")
    ∷ (182, "Queued")
    ∷ (183, "Session in Progress")
    ∷ (199, "Early Dialog Terminated")
    ∷ (200, "OK")
    ∷ (202, "Accepted")
    ∷ (204, "No Notification")
    ∷ (300, "Multiple Choices")
    ∷ (301, "Moved Permanently")
    ∷ (302, "Moved Temporarily")
    ∷ (305, "Use Proxy")
    ∷ (380, "Alternative transport")
    ∷ (400, "Bad Request")
    ∷ (401, "Unauthorized")
    ∷ (402, "Payment Required")
    ∷ (403, "Forbidden")
    ∷ (404, "Not Found")
    ∷ (405, "Method Not Allowed")
    ∷ (406, "Not Acceptable")
    ∷ (407, "Proxy Authentication Required")
    ∷ (408, "Request Timeout")
    ∷ (409, "Conflict")
    ∷ (410, "Gone")
    ∷ (411, "Length Required")
    ∷ (412, "Conditional Request Failed")
    ∷ (413, "Request Entity Too Large")
    ∷ (414, "Request-URI Too Long")
    ∷ (415, "Unsupported Media Type")
    ∷ (416, "Unsupported URI Scheme")
    ∷ (417, "Unknown Resource-Priority")
    ∷ (420, "Bad Extension")
    ∷ (421, "Extension Required")
    ∷ (422, "Session Interval Too Small")
    ∷ (423, "Interval Too Brief")
    ∷ (424, "Bad Location Information")
    ∷ (428, "Use Identity Header")
    ∷ (429, "Provide Referrer Identity")
    ∷ (430, "Flow Failed")
    ∷ (433, "Anonymity Disallowed")
    ∷ (436, "Bad Identity-Info")
    ∷ (437, "Unsupported Certificate")
    ∷ (438, "Invalid Identity Header")
    ∷ (439, "First Hop Lacks Outbound Support")
    ∷ (470, "Consent Needed")
    ∷ (480, "Temporarily Unavailable")
    ∷ (481, "Call/Transaction Does Not Exist")
    ∷ (482, "Loop Detected.")
    ∷ (483, "Too Many Hops")
    ∷ (484, "Address Incomplete")
    ∷ (485, "Ambiguous")
    ∷ (486, "Busy Here")
    ∷ (487, "Request Terminated")
    ∷ (488, "Not Acceptable Here")
    ∷ (489, "Bad Event")
    ∷ (491, "Request Pending")
    ∷ (493, "Undecipherable")
    ∷ (494, "Security Agreement Required")
    ∷ (500, "Server Internal Error")
    ∷ (501, "Not Implemented")
    ∷ (502, "Bad Gateway")
    ∷ (503, "Transport Unavailable")
    ∷ (504, "Server Timeout")
    ∷ (505, "Version Not Supported")
    ∷ (513, "Message Too Large")
    ∷ (580, "Precondition Failure")
    ∷ (600, "Busy Everywhere")
    ∷ (603, "Decline")
    ∷ (604, "Does Not Exist Anywhere")
    ∷ (606, "Not Acceptable")
    ∷ []

-- The loop of `sip_reason_by_code`: the first row with the code.
unfoldable pub reason_in : ℕ → Reasons → String
reason_in code [] = "Unspecified"
reason_in code (m ∷ ms) = let rest = reason_in code ms in if m.0 == code then m.1 else rest

unfoldable pub sip_reason_by_code : ℕ → String
unfolding reason_in
sip_reason_by_code code = reason_in code reasons

-- The codes of a table increase from a bound on.
abbrev increasing : ℕ → Reasons → Bool
increasing bound [] = true
increasing bound (m ∷ ms) = ltb bound m.0 && increasing m.0 ms

and_left : (a b : Bool) → (a && b) ≡ true → a ≡ true
and_left a b h = ground arith

and_right : (a b : Bool) → (a && b) ≡ true → b ≡ true
and_right a b h = ground arith

In-above :
    (bound : ℕ) (ms : Reasons) (r : ℕ × String) → increasing bound ms ≡ true → In r ms → bound < r.0
In-above bound [] r h i = absurd i
In-above bound (m ∷ ms) r h (inl e) =
    rw e (ltb→lt bound m.0 (and_left (ltb bound m.0) (increasing m.0 ms) h))
In-above bound (m ∷ ms) r h (inr i) =
    let below = ltb→lt bound m.0 (and_left (ltb bound m.0) (increasing m.0 ms) h) in
    omega (arith, below, In-above m.0 ms r (and_right (ltb bound m.0) (increasing m.0 ms) h) i)

reason_in-In :
    (bound : ℕ) (ms : Reasons) (r : ℕ × String)
    → increasing bound ms ≡ true
    → In r ms
    → reason_in r.0 ms ≡ r.1
unfolding reason_in
reason_in-In bound [] r h i = absurd i
reason_in-In bound (m ∷ ms) r h (inl e) = rw (e, ==_refl m.0) refl
reason_in-In bound (m ∷ ms) r h (inr i) =
    let rest = and_right (ltb bound m.0) (increasing m.0 ms) h in
    rw (lt_ne m.0 r.0 (In-above m.0 ms r rest i)) (reason_in-In m.0 ms r rest i)

-- Every row of the table is found by its code: no row hides a later one.
pub sip_reason_by_code-In :
    (code : ℕ) (reason : String) → In (code, reason) reasons → sip_reason_by_code code ≡ reason
unfolding sip_reason_by_code
sip_reason_by_code-In code reason i = reason_in-In 0 reasons (code, reason) refl i
