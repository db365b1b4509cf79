-- ===== src/Worker/Acceptance.antt =====
-- coordinator.go, `receiveTransactionAck` and `acceptTransactionAck`: an acknowledgement that arrives
-- and is taken.
use monitord.Base.{
  false, Text, text_eq_refl, true, ◌≡◌, refl, sym, ◌∙◌, ap, Option, none, some, List, [], ◌∷◌,
  arith, if◌then◌else◌, ok, err,
}
use monitord.Worker.Protocol.{TransactionAck, TransactionFrame, accepted_status, valid_ack}
use monitord.Worker.Coordinator.{
  Failure, rejected, control_failed, identity_mismatch, Wire, TransactionCommit, Coordinator,
  same_identity, same_ack, is_same, expected_of, expect_ack, clear_expected, take_ack, receive_ack,
  accept_pending, accept_ack, Input, arrives, acked, Status, waiting, settled, uncertain, received,
  control_ack, answered, while_open, advance, settle, released, frame_of, submit, commit,
}

pub same_ack_refl : (a : TransactionAck) → same_ack a a ≡ true
unfolding same_ack same_identity
same_ack_refl a = ground (arith, text_eq_refl a.deployment_id, text_eq_refl a.payload_hash)

control_ack-valid :
    (a : TransactionAck) (c : Coordinator)
    → valid_ack a ≡ true
    → control_ack a c ≡ while_open c.fatal c (received c (receive_ack a c))
unfolding control_ack
control_ack-valid a c v =
    ap (λ b. while_open c.fatal c (received c (if b then receive_ack a c else err control_failed)))
      v

receive_ack-repeated :
    (a : TransactionAck) (c : Coordinator) → c.last_ack ≡ some a → receive_ack a c ≡ ok c
unfolding receive_ack is_same
receive_ack-repeated a c last =
    ap (λ o. if is_same o a then ok c else take_ack c.expected_ack c.pending_ack a c) last
    ∙ ap (λ b. if b then ok c else take_ack c.expected_ack c.pending_ack a c) (same_ack_refl a)

while_open-idle : (o : Option Failure) (c : Coordinator) → while_open o c c ≡ c
while_open-idle none c = refl
while_open-idle (some e) c = refl

-- Once an acknowledgement has been accepted, every further copy of it leaves the coordinator as it
-- is, also while the next frame waits for its own.
pub control_ack-duplicate :
    (a : TransactionAck) (c : Coordinator)
    → c.last_ack ≡ some a
    → valid_ack a ≡ true
    → control_ack a c ≡ c
unfolding received
control_ack-duplicate a c last v =
    control_ack-valid a c v
    ∙ ap (λ m. while_open c.fatal c (received c m)) (receive_ack-repeated a c last)
    ∙ while_open-idle c.fatal c

valid_ack-accepted : (a : TransactionAck) → valid_ack a ≡ true → accepted_status a.status ≡ true
unfolding valid_ack
valid_ack-accepted a v = ground arith

receive_ack-taken :
    (a e : TransactionAck) (c : Coordinator)
    → is_same c.last_ack a ≡ false
    → c.expected_ack ≡ some e
    → c.pending_ack ≡ none
    → same_identity e a ≡ true
    → receive_ack a c ≡ ok (record c { pending_ack = some a; ack_ready = true })
unfolding receive_ack take_ack
receive_ack-taken a e c new expected pending same =
    ap (λ b. if b then ok c else take_ack c.expected_ack c.pending_ack a c) new
    ∙ ap (λ o. take_ack o c.pending_ack a c) expected
    ∙ ap (λ o. take_ack (some e) o a c) pending
    ∙ ap
        (λ b.
          if b
          then ok (record c { pending_ack = some a; ack_ready = true })
          else err identity_mismatch)
        same

pub control_ack-taken :
    (a e : TransactionAck) (c : Coordinator)
    → c.fatal ≡ none
    → valid_ack a ≡ true
    → is_same c.last_ack a ≡ false
    → c.expected_ack ≡ some e
    → c.pending_ack ≡ none
    → same_identity e a ≡ true
    → control_ack a c ≡ record c { pending_ack = some a; ack_ready = true }
unfolding received
control_ack-taken a e c alive v new expected pending same =
    control_ack-valid a c v
    ∙ ap (λ o. while_open o c (received c (receive_ack a c))) alive
    ∙ ap (received c) (receive_ack-taken a e c new expected pending same)

pub settle-settled :
    (f : TransactionFrame) (is : List Input) (c : Coordinator) (state : Text)
    → settle f is (c, settled state) ≡ (c, settled state)
unfolding settle
settle-settled f [] c state = refl
settle-settled f (i ∷ is) c state = refl

abbrev pub accepted : TransactionAck → Coordinator → Coordinator
accepted a c = record c {
  ack_ready = false;
  expected_ack = none;
  pending_ack = none;
  last_ack = some a;
  revision = a.result_revision;
}

pub advance-acked :
    (f : TransactionFrame) (a : TransactionAck) (c : Coordinator)
    → valid_ack a ≡ true
    → advance f acked (record c { pending_ack = some a; ack_ready = true })
      ≡ (accepted a c, settled f.next_state)
unfolding advance accept_ack answered accept_pending
advance-acked f a c v =
    let taken : Coordinator = record c {
      ack_ready = false;
      expected_ack = none;
      pending_ack = none;
      last_ack = some a;
    } in
    ap
      (λ b.
        if b
        then (record taken { revision = a.result_revision }, settled f.next_state)
        else (taken, uncertain (rejected a.status)))
      (valid_ack-accepted a v)

-- The loop on the two inputs that settle a frame.
settle-acked :
    (f : TransactionFrame) (a : TransactionAck) (c : Coordinator) (is : List Input)
    → valid_ack a ≡ true
    → control_ack a c ≡ record c { pending_ack = some a; ack_ready = true }
    → settle f (arrives a ∷ acked ∷ is) (c, waiting) ≡ (accepted a c, settled f.next_state)
unfolding settle advance
settle-acked f a c is v took =
    ap (λ k. settle f is (advance f acked k)) took
    ∙ ap (settle f is) (advance-acked f a c v)
    ∙ settle-settled f is (accepted a c) f.next_state

-- The coordinator that such a commit leaves.
pub commit-accepted :
    (w : Wire) (tx : TransactionCommit) (a : TransactionAck) (is : List Input) (c : Coordinator)
    (out : Coordinator × Status)
    → c.fatal ≡ none
    → valid_ack a ≡ true
    → is_same c.last_ack a ≡ false
    → same_identity (expected_of (frame_of w tx c)) a ≡ true
    → commit w tx true true true (arrives a ∷ acked ∷ is) c ≡ ok out
    → out ≡ (
      record c {
        seq = (frame_of w tx c).sequence;
        ack_ready = false;
        expected_ack = none;
        pending_ack = none;
        last_ack = some a;
        revision = a.result_revision;
      },
      settled tx.next_state,
    )
unfolding commit submit expect_ack frame_of clear_expected
commit-accepted w tx a is c out alive v new same h =
    let f = frame_of w tx c in
    let begun : Coordinator = record (expect_ack f c) { seq = f.sequence } in
    let returned : submit w f true (arrives a ∷ acked ∷ is) c ≡ out = ground arith in
    let done = ap released (
      settle-acked f a begun is v
        (control_ack-taken a (expected_of f) begun alive v new refl refl same)) in
    sym returned ∙ done
