-- ===== src/Daemon/Delivery/Refinement.antt =====
-- internal/daemon/outbox.go: the sender's batch as calls of the store's outbox.
use monitord.Base.{
  ℕ, Text, ◌≡◌, refl, ap, ◌∙◌, none, some, List, [], ◌∷◌, map, ltb, if◌then◌else◌, Result, ok, err,
  Option, pos, ◌+◌, Bool-cases, inl, inr,
}
use monitord.Base.Table.{find}
use monitord.Storage.Schema.{Error, Store, OutboxDelivery, delivered}
use monitord.Storage.Outbox.{
  ClaimedDelivery, claim_outbox, is_row, mark_delivered, mark_delivery_failed, defer_delivery,
}
use monitord.Storage.Outbox.Histories.{
  after, Call, claims, delivers, defers, fails, step, run, IsOutbox, run-IsOutbox, run-delivered,
}
use monitord.Daemon.Destination.{SendError, Library, Limiter}
use monitord.Daemon.Delivery.{
  SendConditions, Report, to_ms, outbox_lease, outbox_batch, stored_as, done, failed, refused,
  unrecorded, retry_delay, delay_of, max_attempts_of, attempt_error, settle_attempt, after_reserve,
}
use monitord.Daemon.Delivery.Process.{Turn, reserve_all, settle_all, send_all, process}

stored_as-after :
    {F L : Type 0} (lib : Library F L) (report : Report) (refusal : Error → Report) (s : Store)
    (m : Result Error Store)
    → (stored_as lib report refusal s m).1 ≡ after (λ t. t) s m
stored_as-after lib report refusal s (ok t) = refl
stored_as-after lib report refusal s (err e) = refl

module _ {F L : Type 0} (lib : Library F L) where
  -- The one call of the store that a turn makes.
  abbrev settle_call : ClaimedDelivery → ℕ → Option SendError → Call
  settle_call c now none = delivers c.outbox_id c.destination_id c.lease_owner (to_ms now)
  settle_call c now (some f) =
      fails c.outbox_id c.destination_id c.lease_owner f.message (to_ms now)
        (to_ms (now + delay_of (retry_delay lib.int64_n (pos c.attempt_count)) f.classified))
        (max_attempts_of f.classified)

  abbrev turn_call : ClaimedDelivery → SendConditions → Result SendError ℕ → Call
  turn_call c k (err f) = settle_call c k.settled_at (some f)
  turn_call c k (ok delay) =
      if ltb 0 delay
      then defers c.outbox_id c.destination_id c.lease_owner (to_ms (k.settled_at + delay))
      else settle_call c k.settled_at (attempt_error k.attempt)

  settle_attempt-step :
      (c : ClaimedDelivery) (now : ℕ) (o : Option SendError) (s : Store)
      → (settle_attempt lib c now o s).1 ≡ step s (settle_call c now o)
  unfolding settle_attempt step
  settle_attempt-step c now none s =
      stored_as-after lib done refused s
        (mark_delivered c.outbox_id c.destination_id c.lease_owner (to_ms now) s)
  settle_attempt-step c now (some f) s =
      stored_as-after lib (if f.is_canceled then done else failed) unrecorded s (
        mark_delivery_failed c.outbox_id c.destination_id c.lease_owner f.message (to_ms now)
          (to_ms (now + delay_of (retry_delay lib.int64_n (pos c.attempt_count)) f.classified))
          (max_attempts_of f.classified) s)

  after_reserve-step :
      (c : ClaimedDelivery) (k : SendConditions) (r : Result SendError ℕ) (s : Store)
      → (after_reserve lib c k r s).1 ≡ step s (turn_call c k r)
  unfolding step
  after_reserve-step c k (err f) s = settle_attempt-step c k.settled_at (some f) s
  after_reserve-step c k (ok delay) s = elim (Bool-cases (ltb 0 delay)) [
    | inl throttled ↦ rw throttled (
        stored_as-after lib done refused s (
          defer_delivery c.outbox_id c.destination_id c.lease_owner (to_ms (k.settled_at + delay))
            s))
    | inr free ↦ rw free (settle_attempt-step c k.settled_at (attempt_error k.attempt) s)
  ]

  call_of : Turn → Call
  call_of t = turn_call t.claimed t.conditions t.reservation

  settle_all-run : (ts : List Turn) (s : Store) → (settle_all lib ts s).1 ≡ run s (map call_of ts)
  unfolding settle_all run call_of
  settle_all-run [] s = refl
  settle_all-run (t ∷ ts) s =
      let first = after_reserve-step t.claimed t.conditions t.reservation s in
      settle_all-run ts (after_reserve lib t.claimed t.conditions t.reservation s).1
      ∙ ap (λ u. run u (map call_of ts)) first

  -- The calls of a batch after its claim.
  calls_of :
      (ClaimedDelivery → SendConditions)
      → (List ClaimedDelivery → List ClaimedDelivery)
      → (List Turn → List Turn)
      → List (Limiter L)
      → Result Error (List ClaimedDelivery × Store)
      → List Call
  calls_of conditions order reorder limits (err e) = []
  calls_of conditions order reorder limits (ok (claimed, t)) =
      map call_of (reorder (reserve_all lib conditions (order claimed) limits).0)

  send_all-run :
      (conditions : ClaimedDelivery → SendConditions)
      (order : List ClaimedDelivery → List ClaimedDelivery) (reorder : List Turn → List Turn)
      (limits : List (Limiter L)) (s : Store) (m : Result Error (List ClaimedDelivery × Store))
      → (send_all lib conditions order reorder limits s m).2
        ≡ run (after (λ r. r.1) s m) (calls_of conditions order reorder limits m)
  unfolding send_all run calls_of
  send_all-run conditions order reorder limits s (err e) = refl
  send_all-run conditions order reorder limits s (ok (claimed, t)) =
      settle_all-run (reorder (reserve_all lib conditions (order claimed) limits).0) t

  process-run :
      (conditions : ClaimedDelivery → SendConditions)
      (order : List ClaimedDelivery → List ClaimedDelivery) (reorder : List Turn → List Turn)
      (owner claim_id : Text) (now : ℕ) (limits : List (Limiter L)) (s : Store)
      → (process lib conditions order reorder owner claim_id now limits s).2
        ≡ run s (
            claims owner claim_id (to_ms now) (to_ms outbox_lease) outbox_batch
            ∷ calls_of conditions order reorder limits
                (claim_outbox owner claim_id (to_ms now) (to_ms outbox_lease) outbox_batch s))
  unfolding process run step
  process-run conditions order reorder owner claim_id now limits s =
      send_all-run conditions order reorder limits s
        (claim_outbox owner claim_id (to_ms now) (to_ms outbox_lease) outbox_batch s)

  -- From a well-formed outbox, a batch of the sender leaves every row as it is that was delivered
  -- before, and the outbox well-formed: whatever the attempts and the limiters come to, and in
  -- whatever order the deliveries of the batch are reserved and settled.
  pub process-delivered :
      (conditions : ClaimedDelivery → SendConditions)
      (order : List ClaimedDelivery → List ClaimedDelivery) (reorder : List Turn → List Turn)
      (owner claim_id : Text) (now : ℕ) (limits : List (Limiter L)) (s : Store)
      (outbox destination : Text) (d : OutboxDelivery)
      → IsOutbox s
      → find (is_row outbox destination) s.outbox.deliveries ≡ some d
      → d.status ≡ delivered
      → IsOutbox (process lib conditions order reorder owner claim_id now limits s).2
        × (find
              (is_row outbox destination)
              (process lib conditions order reorder owner claim_id now limits s).2.outbox.deliveries
            ≡ some d)
  process-delivered conditions order reorder owner claim_id now limits s outbox destination d v h
        sent =
      rw (process-run conditions order reorder owner claim_id now limits s)
        (run-IsOutbox s _ v, run-delivered s _ outbox destination d v h sent)
