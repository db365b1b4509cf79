-- ===== src/Daemon/Delivery/Backoff.antt =====
-- internal/daemon/outbox.go, `sendOne` and `retryDelay`: what becomes of a delivery whose send fails.
use monitord.Base.{
  ℕ, ◌+◌, ◌*◌, ◌^◌, ◌≤◌, ◌<◌, Text, Result-cases, ◌≡◌, refl, ◌⊎◌, inl, inr, min, leb, Bool, true,
  false, ◌&&◌, Option, none, some, List, arith, ok, ℤ, pos, pos_part, Bool-cases,
}
use native.Mathlib.Nat.{pow-le-pow_right}
use monitord.Base.Table.{find, count, count_found, find_and}
use monitord.Storage.Schema.{Store, OutboxDelivery, pending, dead}
use monitord.Storage.Outbox.{
  ClaimedDelivery, is_row, is_sending, owned_by, finish_delivery, mark_delivery_failed,
}
use monitord.Storage.Outbox.Leases.{mark_delivery_failed-attempts}
use monitord.Daemon.Destination.{SendError, Classified, Library, Limiter, reserve_destination}
use monitord.Daemon.Delivery.{
  SendConditions, attempt_error, settle_attempt, send_one, to_ms, cap_delay, retry_delay, delay_of,
  max_attempts_of, max_int, outbox_max_backoff, outbox_base_backoff, wrap,
}

wrap-small : (n : ℕ) → n < 2 ^ 64 → wrap n ≡ n
wrap-small n h = omega (arith, h)

-- The arithmetic of `retryDelay` wraps nowhere.
cap_delay-exact :
    (attempt : ℤ)
    → cap_delay attempt
      ≡ min (outbox_base_backoff * 2 ^ min (pos_part attempt) 20) outbox_max_backoff
unfolding cap_delay
cap_delay-exact attempt =
    let small : 2 ^ min (pos_part attempt) 20 ≤ 2 ^ 20 =
      pow-le-pow_right {n = 2} (omega arith) {i = min (pos_part attempt) 20} {j = 20}
        (omega arith) in
    let power = wrap-small (2 ^ min (pos_part attempt) 20) (omega (arith, small)) in
    let product =
      wrap-small (outbox_base_backoff * 2 ^ min (pos_part attempt) 20) (omega (arith, small)) in
    rw power (rw product refl)

retry_delay-le :
    (int64_n : ℕ → ℕ) (attempt : ℤ)
    → ((n : ℕ) → 0 < n → int64_n n < n)
    → retry_delay int64_n attempt ≤ outbox_max_backoff
unfolding retry_delay
retry_delay-le int64_n attempt h =
    let cap : cap_delay attempt ≤ outbox_max_backoff = rw (cap_delay-exact attempt) (omega arith) in
    elim (Bool-cases (leb (cap_delay attempt) (10 ^ 6))) [
      | inl short ↦ rw short cap
      | inr long ↦
          let large : 0 < cap_delay attempt = ground arith in
          rw long (omega (arith, cap, h (cap_delay attempt) large))
    ]

delay_of-le :
    (jitter : ℕ) (k : Option Classified)
    → jitter ≤ outbox_max_backoff
    → delay_of jitter k ≤ outbox_max_backoff
delay_of-le jitter none h = h
delay_of-le jitter (some k) h = ground arith

mark_delivery_failed-ok :
    (outbox destination owner error : Text) (now at max_attempts : ℕ) (s : Store)
    (d : OutboxDelivery)
    → count (is_row outbox destination) s.outbox.deliveries ≤ 1
    → find (is_row outbox destination) s.outbox.deliveries ≡ some d
    → (is_sending d.status && owned_by d.lease_owner owner) ≡ true
    → 1 ≤ max_attempts
    → (t : Store) × (mark_delivery_failed outbox destination owner error now at max_attempts s
        ≡ ok t)
unfolding mark_delivery_failed finish_delivery
mark_delivery_failed-ok outbox destination owner error now at max_attempts s d unique found held
      more =
    let mine = λ (r : OutboxDelivery). is_sending r.status && owned_by r.lease_owner owner in
    let row = find_and (is_row outbox destination) mine s.outbox.deliveries d unique found held in
    let one =
      count_found (is_row outbox destination) mine s.outbox.deliveries d unique found held in
    elim (Result-cases
      (mark_delivery_failed outbox destination owner error now at max_attempts s)) [
        | inl done ↦ done
        | inr (x, e) ↦ elim (Bool-cases (leb max_attempts (d.attempt_count + 1))) [
          | inl last ↦ absurd (ground (arith, row, one, last, e))
          | inr again ↦ absurd (ground (arith, row, one, again, e))
        ]
      ]

abbrev pub is_permanent : SendError → Bool
is_permanent f = elim f.classified [ none ↦ false | some k ↦ k.permanent ]

max_attempts_of-permanent :
    (k : Option Classified)
    → ((elim k [ none ↦ false | some x ↦ x.permanent ]) ≡ true) × (max_attempts_of k ≡ 1)
      ⊎ ((elim k [ none ↦ false | some x ↦ x.permanent ]) ≡ false) × (max_attempts_of k ≡ max_int)
max_attempts_of-permanent none = inr (refl, refl)
max_attempts_of-permanent (some k) = elim (Bool-cases k.permanent) [
  | inl e ↦ inl (e, rw e refl)
  | inr e ↦ inr (e, rw e refl)
]

-- What a row becomes when the attempt on it fails with `f` at the time `now`.
abbrev pub Failed : SendError → ℕ → OutboxDelivery → OutboxDelivery → Type 0
Failed f now d e =
    (e.attempt_count ≡ d.attempt_count + 1)
    × (e.lease_owner ≡ none)
    × (((is_permanent f ≡ true) × (e.status ≡ dead))
        ⊎ ((is_permanent f ≡ false)
            × (e.status ≡ pending)
            × (to_ms now ≤ e.next_attempt_at)
            × (e.next_attempt_at ≤ to_ms now + 900000)))

module _ {F L : Type 0} (lib : Library F L) where
  settle_attempt-Failed :
      (c : ClaimedDelivery) (now : ℕ) (f : SendError) (s : Store) (d : OutboxDelivery)
      → count (is_row c.outbox_id c.destination_id) s.outbox.deliveries ≤ 1
      → find (is_row c.outbox_id c.destination_id) s.outbox.deliveries ≡ some d
      → (is_sending d.status && owned_by d.lease_owner c.lease_owner) ≡ true
      → d.attempt_count + 1 < max_int
      → ((n : ℕ) → 0 < n → lib.int64_n n < n)
      → (e : OutboxDelivery) × (find
            (is_row c.outbox_id c.destination_id)
            (settle_attempt lib c now (some f) s).1.outbox.deliveries
          ≡ some e)
        × Failed f now d e
  unfolding settle_attempt
  settle_attempt-Failed c now f s d unique found held few random =
      let limit = max_attempts_of-permanent f.classified in
      let delay = delay_of (retry_delay lib.int64_n (pos c.attempt_count)) f.classified in
      let bound : delay ≤ outbox_max_backoff =
        delay_of-le (retry_delay lib.int64_n (pos c.attempt_count)) f.classified
          (retry_delay-le lib.int64_n (pos c.attempt_count) random) in
      let marked =
        mark_delivery_failed-ok c.outbox_id c.destination_id c.lease_owner f.message (to_ms now)
          (to_ms (now + delay)) (max_attempts_of f.classified) s d unique found held
          (elim limit [ inl (p, m) ↦ omega (arith, m) | inr (p, m) ↦ omega (arith, m) ]) in
      let out =
        mark_delivery_failed-attempts c.outbox_id c.destination_id c.lease_owner f.message
          (to_ms now) (to_ms (now + delay)) (max_attempts_of f.classified) s marked.0 d unique found
          marked.1 in
      rw marked.1 (
        out.0,
        out.1,
        (
          out.2,
          out.3,
          elim limit [
            | inl (p, m) ↦ elim out.4 [
              | inl (last, died, at) ↦ inl (p, died)
              | inr (again, waiting, at) ↦ absurd (omega (arith, again, m))
            ]
            | inr (p, m) ↦ elim out.4 [
              | inl (last, died, at) ↦ absurd (omega (arith, last, m, few))
              | inr (again, waiting, at) ↦
                  inr (p, waiting, omega (arith, at), omega (arith, at, bound))
            ]
          ],
        ),
      )

  -- A claimed row under a unique key, whose lease the sender still holds and whose limiter lets the
  -- send through, is settled when its attempt fails: the failed attempt is counted and the lease given
  -- up, and a permanent error makes the row dead, whereas any other one has it wait, up to fifteen
  -- minutes (in milliseconds), provided that the random number lies below its bound and the attempts
  -- so far below math.MaxInt.
  pub send_one-fails :
      (c : ClaimedDelivery) (k : SendConditions) (limits : List (Limiter L)) (f : SendError)
      (s : Store) (d : OutboxDelivery)
      → count (is_row c.outbox_id c.destination_id) s.outbox.deliveries ≤ 1
      → find (is_row c.outbox_id c.destination_id) s.outbox.deliveries ≡ some d
      → (is_sending d.status && owned_by d.lease_owner c.lease_owner) ≡ true
      → d.attempt_count + 1 < max_int
      → ((n : ℕ) → 0 < n → lib.int64_n n < n)
      → (reserve_destination lib c k.reserved_at limits).0 ≡ ok 0
      → attempt_error k.attempt ≡ some f
      → (e : OutboxDelivery) × (find
            (is_row c.outbox_id c.destination_id)
            (send_one lib c k limits s).2.outbox.deliveries
          ≡ some e)
        × Failed f k.settled_at d e
  unfolding send_one
  send_one-fails c k limits f s d unique found held few random free fails =
      rw free (rw fails (settle_attempt-Failed c k.settled_at f s d unique found held few random))
