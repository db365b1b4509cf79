-- ===== src/Worker/Progress.antt =====
-- coordinator.go, `Commit` and the control reader: a commit whose acknowledgement arrives among other
-- inputs.
use monitord.Base.Table.{All-imp}
use monitord.Base.{
  ◌⊎◌, inl, inr, All, ◌++◌, length, ◌+◌, ◌≤◌, ◌*◌, ℕ, ltb, false, true, ◌≡◌, refl, ◌∙◌, ap, Option,
  none, some, List, [], ◌∷◌, arith, ok,
}
use monitord.Worker.Protocol.{TransactionAck, TransactionFrame, valid_ack, valid_transaction}
use monitord.Worker.Coordinator.{
  Wire, TransactionCommit, Coordinator, same_identity, is_same, expected_of, expect_ack,
  clear_expected, retries, disconnects, finds_fatal, times_out, take_ack, receive_ack, Input,
  arrives, acked, waiting, settled, received, control_ack, advance, settle, released, frame_of,
  submit, commit,
}
use monitord.Worker.Acceptance.{
  same_ack_refl, control_ack-duplicate, control_ack-taken, settle-settled, accepted, advance-acked,
}

within_limit : (n : ℕ) → n ≤ 4 * 1024 * 1024 → ltb (4 * 1024 * 1024) n ≡ false
within_limit n h = ground (arith, h)

-- An input on which the loop goes on with the coordinator as it is: a retry that is written, a look
-- for a fatal error that finds none, or a late copy of the last acknowledgement that was accepted.
abbrev pub IsQuiet : Option TransactionAck → Input → Type 0
IsQuiet last (retries sent) = sent ≡ true
IsQuiet last (arrives b) = (last ≡ some b) × (valid_ack b ≡ true)
IsQuiet last finds_fatal = Unit {0}
IsQuiet last _ = ⊥

-- The same, once `a` waits to be taken, of which further copies may arrive.
abbrev pub IsQuietAfter : TransactionAck → Option TransactionAck → Input → Type 0
IsQuietAfter a last i = IsQuiet last i ⊎ (i ≡ arrives a)

advance-quiet :
    (f : TransactionFrame) (i : Input) (c : Coordinator)
    → c.fatal ≡ none
    → IsQuiet c.last_ack i
    → advance f i c ≡ (c, waiting)
unfolding advance
advance-quiet f (retries sent) c alive h = rw h refl
advance-quiet f (arrives b) c alive h = ap (λ k. (k, waiting)) (control_ack-duplicate b c h.0 h.1)
advance-quiet f finds_fatal c alive h = rw alive refl
advance-quiet f disconnects c alive h = absurd h
advance-quiet f acked c alive h = absurd h
advance-quiet f times_out c alive h = absurd h

settle-quiet :
    (f : TransactionFrame) (before is : List Input) (c : Coordinator)
    → All (λ i. advance f i c ≡ (c, waiting)) before
    → settle f (before ++ is) (c, waiting) ≡ settle f is (c, waiting)
unfolding settle
settle-quiet f [] is c h = refl
settle-quiet f (i ∷ before) is c h =
    ap (settle f (before ++ is)) h.0 ∙ settle-quiet f before is c h.1

-- A further copy of the acknowledgement that waits to be taken.
advance-again :
    (f : TransactionFrame) (a e : TransactionAck) (c : Coordinator)
    → c.fatal ≡ none
    → valid_ack a ≡ true
    → is_same c.last_ack a ≡ false
    → c.expected_ack ≡ some e
    → c.pending_ack ≡ some a
    → same_identity e a ≡ true
    → advance f (arrives a) c ≡ (c, waiting)
unfolding advance control_ack receive_ack take_ack received
advance-again f a e c alive v new expected pending same =
    rw (alive, v, new, expected, pending, same, same_ack_refl a) refl

-- The loop on an acknowledgement that arrives and is taken, among quiet inputs.
settle-arrives :
    (f : TransactionFrame) (a : TransactionAck) (before between is : List Input) (c : Coordinator)
    → c.fatal ≡ none
    → c.expected_ack ≡ some (expected_of f)
    → c.pending_ack ≡ none
    → valid_ack a ≡ true
    → is_same c.last_ack a ≡ false
    → same_identity (expected_of f) a ≡ true
    → All (IsQuiet c.last_ack) before
    → All (IsQuietAfter a c.last_ack) between
    → settle f (before ++ (arrives a ∷ (between ++ (acked ∷ is)))) (c, waiting)
      ≡ (accepted a c, settled f.next_state)
unfolding settle advance
settle-arrives f a before between is c alive expected pending v new same quiet quiet_after =
    let held : Coordinator = record c { pending_ack = some a; ack_ready = true } in
    let took = control_ack-taken a (expected_of f) c alive v new expected pending same in
    let arrived : advance f (arrives a) c ≡ (held, waiting) = ap (λ k. (k, waiting)) took in
    settle-quiet f before (arrives a ∷ between ++ acked ∷ is) c
      (All-imp (IsQuiet c.last_ack) _ before (λ i q. advance-quiet f i c alive q) quiet)
    ∙ ap (settle f (between ++ (acked ∷ is))) arrived
    ∙ settle-quiet f between (acked ∷ is) held (
        All-imp (IsQuietAfter a c.last_ack) _ between
          (λ i q. elim q [
            | inl idle ↦ advance-quiet f i held alive idle
            | inr again ↦
                rw again (advance-again f a (expected_of f) held alive v new expected refl same)
          ])
          quiet_after)
    ∙ ap (settle f is) (advance-acked f a c v)
    ∙ settle-settled f is (accepted a c) f.next_state

-- On an open control channel, a commit that is admitted and written returns the next state at the
-- revision of its acknowledgement, with nothing left to wait for, once a valid acknowledgement of the
-- frame arrives that is not a copy of the last one accepted, and is taken: whatever written retries,
-- looks for a fatal error and late copies of the last acknowledgement come before, whatever of these
-- and further copies of the acknowledgement come between, and whatever comes after.
pub commit-settled :
    (w : Wire) (tx : TransactionCommit) (a : TransactionAck) (before between is : List Input)
    (c : Coordinator)
    → valid_transaction w.trim_space w.json_valid (frame_of w tx c) ≡ true
    → length (w.marshal_frame (frame_of w tx c)) + 1 ≤ 4 * 1024 * 1024
    → c.fatal ≡ none
    → valid_ack a ≡ true
    → is_same c.last_ack a ≡ false
    → same_identity (expected_of (frame_of w tx c)) a ≡ true
    → All (IsQuiet c.last_ack) before
    → All (IsQuietAfter a c.last_ack) between
    → commit w tx true true true (before ++ (arrives a ∷ (between ++ (acked ∷ is)))) c
      ≡ ok (
        record c {
          seq = (frame_of w tx c).sequence;
          ack_ready = false;
          expected_ack = none;
          pending_ack = none;
          last_ack = some a;
          revision = a.result_revision;
        },
        settled tx.next_state,
      )
unfolding commit submit expect_ack frame_of clear_expected
commit-settled w tx a before between is c valid fits alive v new same quiet quiet_after =
    let f = frame_of w tx c in
    let begun : Coordinator = record (expect_ack f c) { seq = f.sequence } in
    let done =
      ap released
        (settle-arrives f a before between is begun alive refl refl v new same quiet quiet_after) in
    rw (valid, within_limit _ fits) (ap ok done)
