-- ===== src/Worker/Settlement.antt =====
-- What a commit that returns has settled: coordinator.go, `Commit`.
use monitord.Base.{
  ℕ, Text, Bool, true, false, ◌≡◌, refl, inl, inr, Option, none, some, List, [], ◌∷◌, arith,
  Bool-cases, if◌then◌else◌, ok, err, Result,
}
use mathlib.Core.Path.{subst}
use monitord.Worker.Protocol.{TransactionAck, TransactionFrame, accepted_status, valid_ack}
use monitord.Worker.Coordinator.{
  Failure, Wire, TransactionCommit, Coordinator, same_identity, is_same, expected_of, expect_ack,
  clear_expected, take_ack, receive_ack, accept_pending, accept_ack, Input, arrives, disconnects,
  acked, retries, finds_fatal, times_out, Status, waiting, settled, uncertain, report_fatal,
  received, control_ack, answered, advance, settle, keep_first, while_open, fatal_case, released,
  frame_of, submit, commit,
}

abbrev Pending : TransactionFrame → Option TransactionAck → Type 0
Pending f none = Unit
Pending f (some a) = same_identity (expected_of f) a ≡ true

-- The coordinator while the frame `f` waits for its acknowledgement; `r` is the revision before it.
record Waits (f : TransactionFrame) (r : ℕ) (c : Coordinator) : Type 0 where
  expected : c.expected_ack ≡ some (expected_of f)
  pending : Pending f c.pending_ack
  number : c.seq ≡ f.sequence
  kept : c.revision ≡ r

-- The coordinator once the loop has accepted an acknowledgement of `f`.
pub record Settled (f : TransactionFrame) (state : Text) (c : Coordinator) : Type 0 where
  pub ack : TransactionAck
  pub identity : same_identity (expected_of f) ack ≡ true
  pub status : accepted_status ack.status ≡ true
  pub last : c.last_ack ≡ some ack
  pub revision : c.revision ≡ ack.result_revision
  pub number : c.seq ≡ f.sequence
  pub cleared : (c.expected_ack ≡ none) × (c.pending_ack ≡ none)
  pub next : state ≡ f.next_state

abbrev Holds : TransactionFrame → ℕ → Coordinator × Status → Type 0
Holds f r (c, waiting) = Waits f r c
Holds f r (c, settled state) = Settled f state c
Holds f r (c, uncertain e) = c.revision ≡ r

taken-Waits :
    (f : TransactionFrame) (r : ℕ) (a : TransactionAck) (c : Coordinator)
    → Waits f r c
    → same_identity (expected_of f) a ≡ true
    → Waits f r (record c { pending_ack = some a; ack_ready = true })
taken-Waits f r a c w e = record {
  expected = w.expected;
  pending = e;
  number = w.number;
  kept = w.kept;
}

take_ack-Waits :
    (f : TransactionFrame) (r : ℕ) (a : TransactionAck) (held : Option TransactionAck)
    (c d : Coordinator)
    → Waits f r c
    → take_ack (some (expected_of f)) held a c ≡ ok d
    → Waits f r d
unfolding take_ack
take_ack-Waits f r a none c d w h = elim (Bool-cases (same_identity (expected_of f) a)) [
  | inl e ↦
      let same : record c { pending_ack = some a; ack_ready = true } ≡ d = ground (arith, e) in
      subst (Waits f r) same (taken-Waits f r a c w e)
  | inr e ↦ absurd (ground arith)
]
take_ack-Waits f r a (some held) c d w h =
    let same : c ≡ d = ground arith in subst (Waits f r) same w

receive_ack-Waits :
    (f : TransactionFrame) (r : ℕ) (a : TransactionAck) (c d : Coordinator)
    → Waits f r c
    → receive_ack a c ≡ ok d
    → Waits f r d
unfolding receive_ack
receive_ack-Waits f r a c d w h = elim (Bool-cases (is_same c.last_ack a)) [
  | inl e ↦ let same : c ≡ d = ground (arith, e) in subst (Waits f r) same w
  | inr e ↦
      let taken : take_ack c.expected_ack c.pending_ack a c ≡ ok d = ground (arith, e) in
      take_ack-Waits f r a c.pending_ack c d w
        (subst (λ o. take_ack o c.pending_ack a c ≡ ok d) w.expected taken)
]

keep_first-Waits :
    (f : TransactionFrame) (r : ℕ) (e : Failure) (o : Option Failure) (c : Coordinator)
    → Waits f r c
    → Waits f r (keep_first o e c)
keep_first-Waits f r e none c w = record {
  expected = w.expected;
  pending = w.pending;
  number = w.number;
  kept = w.kept;
}
keep_first-Waits f r e (some x) c w = w

received-Waits :
    (f : TransactionFrame) (r : ℕ) (c : Coordinator) (m : Result Failure Coordinator)
    → Waits f r c
    → ((d : Coordinator) → m ≡ ok d → Waits f r d)
    → Waits f r (received c m)
unfolding received report_fatal
received-Waits f r c (ok d) w on_ok = on_ok d refl
received-Waits f r c (err e) w on_ok = keep_first-Waits f r e c.fatal c w

validated-Waits :
    (f : TransactionFrame) (r : ℕ) (a : TransactionAck) (c : Coordinator) (b : Bool) (e : Failure)
    → Waits f r c
    → Waits f r (received c (if b then receive_ack a c else err e))
unfolding received report_fatal
validated-Waits f r a c true e w =
    received-Waits f r c (receive_ack a c) w (λ d. receive_ack-Waits f r a c d w)
validated-Waits f r a c false e w = keep_first-Waits f r e c.fatal c w

while_open-Waits :
    (f : TransactionFrame) (r : ℕ) (o : Option Failure) (c d : Coordinator)
    → Waits f r c
    → Waits f r d
    → Waits f r (while_open o c d)
while_open-Waits f r none c d w v = v
while_open-Waits f r (some x) c d w v = w

control_ack-Waits :
    (f : TransactionFrame) (r : ℕ) (a : TransactionAck) (c : Coordinator)
    → Waits f r c
    → Waits f r (control_ack a c)
unfolding control_ack
control_ack-Waits f r a c w =
    while_open-Waits f r c.fatal c _ w (validated-Waits f r a c (valid_ack a) _ w)

answered-Holds :
    (f : TransactionFrame) (r : ℕ) (a : TransactionAck) (c d : Coordinator)
    → same_identity (expected_of f) a ≡ true
    → d.last_ack ≡ some a
    → (d.expected_ack ≡ none) × (d.pending_ack ≡ none)
    → d.seq ≡ f.sequence
    → d.revision ≡ r
    → Holds f r (answered f c (ok (a, d)))
unfolding answered
answered-Holds f r a c d e last cleared number kept =
    (elim (Bool-cases (accepted_status a.status)) as (λ x. Holds f r (answered f c (ok (a, d)))) [
      | inl ac ↦ rw ac (record {
        ack = a;
        identity = e;
        status = ac;
        last = last;
        revision = refl;
        number = number;
        cleared = cleared;
        next = refl;
      })
      | inr re ↦ rw re kept
    ])

accepted-Holds :
    (f : TransactionFrame) (r : ℕ) (held : Option TransactionAck) (c : Coordinator)
    → c.seq ≡ f.sequence
    → c.revision ≡ r
    → Pending f held
    → Holds f r (answered f c (accept_pending held c))
unfolding accept_pending answered
accepted-Holds f r none c number kept p = kept
accepted-Holds f r (some a) c number kept p =
    answered-Holds f r a c _ p refl (refl, refl) number kept

acked-Holds :
    (f : TransactionFrame) (r : ℕ) (c : Coordinator) (ready : Bool)
    → Waits f r c
    → Holds f r (
        if ready
        then answered f
            (record c { ack_ready = false })
            (accept_ack (record c { ack_ready = false }))
        else (c, waiting))
unfolding accept_ack
acked-Holds f r c true w = accepted-Holds f r c.pending_ack _ w.number w.kept w.pending
acked-Holds f r c false w = w

fatal_case-Holds :
    (f : TransactionFrame) (r : ℕ) (o : Option Failure) (c : Coordinator)
    → Waits f r c
    → Holds f r (fatal_case o c)
fatal_case-Holds f r none c w = w
fatal_case-Holds f r (some x) c w = w.kept

advance-Holds :
    (f : TransactionFrame) (r : ℕ) (i : Input) (c : Coordinator)
    → Waits f r c
    → Holds f r (advance f i c)
unfolding advance report_fatal
advance-Holds f r (arrives a) c w = control_ack-Waits f r a c w
advance-Holds f r disconnects c w = keep_first-Waits f r _ c.fatal c w
advance-Holds f r acked c w = acked-Holds f r c c.ack_ready w
advance-Holds f r (retries true) c w = w
advance-Holds f r (retries false) c w = w.kept
advance-Holds f r finds_fatal c w = fatal_case-Holds f r c.fatal c w
advance-Holds f r times_out c w = w.kept

settle-Holds :
    (f : TransactionFrame) (r : ℕ) (is : List Input) (c : Coordinator) (s : Status)
    → Holds f r (c, s)
    → Holds f r (settle f is (c, s))
unfolding settle
settle-Holds f r [] c s h = h
settle-Holds f r (i ∷ is) c waiting h =
    settle-Holds f r is (advance f i c).0 (advance f i c).1 (advance-Holds f r i c h)
settle-Holds f r (i ∷ is) c (settled state) h = h
settle-Holds f r (i ∷ is) c (uncertain e) h = h

-- What `Commit` leaves, by what it returns: nothing is promised of one that still waits.
abbrev pub Leaves : TransactionFrame → Coordinator → Coordinator × Status → Type 0
Leaves f before (c, waiting) = Unit
Leaves f before (c, settled state) = Settled f state c
Leaves f before (c, uncertain e) = c.revision ≡ before.revision

released-Leaves :
    (f : TransactionFrame) (before c : Coordinator) (s : Status)
    → Holds f before.revision (c, s)
    → Leaves f before (released (c, s))
unfolding clear_expected
released-Leaves f before c waiting h = tt
released-Leaves f before c (settled state) h = record {
  ack = h.ack;
  identity = h.identity;
  status = h.status;
  last = h.last;
  revision = h.revision;
  number = h.number;
  cleared = (refl, refl);
  next = h.next;
}
released-Leaves f before c (uncertain e) h = h

submit-Leaves :
    (w : Wire) (f : TransactionFrame) (sent : Bool) (is : List Input) (c : Coordinator)
    → Leaves f c (submit w f sent is c)
unfolding submit expect_ack clear_expected
submit-Leaves w f false is c = refl
submit-Leaves w f true is c =
    let begun = record (expect_ack f c) { seq = f.sequence } in
    let held : Holds f c.revision (settle f is (begun, waiting)) =
      settle-Holds f c.revision is begun waiting
        (record { expected = refl; pending = tt; number = refl; kept = refl }) in
    released-Leaves f c (settle f is (begun, waiting)).0 (settle f is (begun, waiting)).1 held

-- Whatever the control channel delivers and however it interleaves with the loop: a commit that
-- returns the next state has accepted an acknowledgement with the deployment, the generation, the
-- sequence and the payload hash of its own frame and an accepted or replayed status, has taken its
-- revision and its own sequence number, and expects nothing more; one that returns an error after
-- the frame was admitted has kept the revision.
pub commit-Leaves :
    (w : Wire) (tx : TransactionCommit) (alive admitted sent : Bool) (is : List Input)
    (c : Coordinator) (out : Coordinator × Status)
    → commit w tx alive admitted sent is c ≡ ok out
    → Leaves (frame_of w tx c) c out
unfolding commit
commit-Leaves w tx alive admitted sent is c out h =
    let same : submit w (frame_of w tx c) sent is c ≡ out = ground arith in
    subst (Leaves (frame_of w tx c) c) same (submit-Leaves w (frame_of w tx c) sent is c)
