-- ===== src/Daemon/Delivery/Settled.antt =====
-- internal/daemon/outbox.go, `sendOne`: which sends mark a delivery as delivered.
use monitord.Base.{
  ℕ, Text, ◌≡◌, refl, ◌⊎◌, inl, inr, true, false, Option, none, some, List, arith, ltb, Result, ok,
  err, Bool-cases, Option-cases, ◌+◌, leb, ap,
}
use monitord.Base.Table.{find, find-update}
use monitord.Utf8.{bounded_text}
use monitord.Storage.Health.{max_stored_error_bytes}
use monitord.Storage.Schema.{Error, Store, OutboxDelivery, delivered}
use monitord.Storage.Outbox.{
  ClaimedDelivery, is_row, is_leased, is_delivered, finish_delivery, set_delivered, set_deferred,
  set_dead, set_retry, mark_delivered, defer_delivery, mark_delivery_failed,
}
use monitord.Daemon.Destination.{SendError, Library, Limiter, reserve_destination}
use monitord.Daemon.Delivery.{
  SendConditions, Attempt, replied, deadline_exceeded, canceled, Report, attempt_error, stored_as,
  settle_attempt, after_reserve, send_one, to_ms,
}

-- A delivered row of `t` is one of `s`.
abbrev Keeps : Store → Store → Type 0
Keeps s t =
    (outbox destination : Text) (e : OutboxDelivery)
    → find (is_row outbox destination) t.outbox.deliveries ≡ some e
    → e.status ≡ delivered
    → find (is_row outbox destination) s.outbox.deliveries ≡ some e

finish_delivery-Keeps :
    (outbox destination owner : Text) (set : OutboxDelivery → OutboxDelivery) (s t : Store)
    → ((d : OutboxDelivery) → is_delivered (set d).status ≡ false)
    → ((x y : Text) (d : OutboxDelivery) → is_row x y (set d) ≡ is_row x y d)
    → finish_delivery outbox destination owner set s ≡ ok t
    → Keeps s t
unfolding finish_delivery
finish_delivery-Keeps outbox destination owner set s t unsent same h x y e found done =
    let target = is_leased outbox destination owner in
    let rows = find-update target (is_row x y) set s.outbox.deliveries (same x y) in
    elim (Option-cases (find (is_row x y) s.outbox.deliveries)) [
      | inl missing ↦ absurd (ground (arith, rows, missing))
      | inr (d, there) ↦ elim (Bool-cases (target d)) [
        | inl hit ↦ absurd (ground (arith, rows, there, hit, unsent d))
        | inr miss ↦ ground (arith, rows, there, miss)
      ]
    ]

mark_delivery_failed-Keeps :
    (outbox destination owner error : Text) (now at max_attempts : ℕ) (s t : Store)
    → mark_delivery_failed outbox destination owner error now at max_attempts s ≡ ok t
    → Keeps s t
unfolding mark_delivery_failed
mark_delivery_failed-Keeps outbox destination owner error now at max_attempts s t h =
    let message = bounded_text error max_stored_error_bytes in
    elim (Option-cases (find (is_leased outbox destination owner) s.outbox.deliveries)) [
      | inl e ↦ absurd (ground arith)
      | inr (d, e) ↦ elim (Bool-cases (leb max_attempts (d.attempt_count + 1))) [
        | inl last ↦
            finish_delivery-Keeps outbox destination owner (set_dead message now) s t (λ d. refl)
              (λ x y d. refl) (ground arith)
        | inr more ↦
            finish_delivery-Keeps outbox destination owner (set_retry message at) s t (λ d. refl)
              (λ x y d. refl) (ground arith)
      ]
    ]

defer_delivery-Keeps :
    (outbox destination owner : Text) (at : ℕ) (s t : Store)
    → defer_delivery outbox destination owner at s ≡ ok t
    → Keeps s t
unfolding defer_delivery
defer_delivery-Keeps outbox destination owner at s t h =
    finish_delivery-Keeps outbox destination owner (set_deferred at) s t (λ d. refl) (λ x y d. refl)
      h

-- A row that is marked delivered is the row of the key, or was delivered before.
mark_delivered-row :
    (outbox destination owner x y : Text) (now : ℕ) (s t : Store) (e : OutboxDelivery)
    → mark_delivered outbox destination owner now s ≡ ok t
    → find (is_row x y) t.outbox.deliveries ≡ some e
    → (find (is_row x y) s.outbox.deliveries ≡ some e) ⊎ (is_row outbox destination e ≡ true)
unfolding mark_delivered finish_delivery
mark_delivered-row outbox destination owner x y now s t e h found =
    let target = is_leased outbox destination owner in
    let rows =
      find-update target (is_row x y) (set_delivered now) s.outbox.deliveries (λ d. refl) in
    elim (Option-cases (find (is_row x y) s.outbox.deliveries)) [
      | inl missing ↦ absurd (ground (arith, rows, missing))
      | inr (d, there) ↦ elim (Bool-cases (target d)) [
        | inl hit ↦ inr (ground (arith, rows, there, hit))
        | inr miss ↦ inl (ground (arith, rows, there, miss))
      ]
    ]

attempt_error-replied : (a : Attempt) → attempt_error a ≡ none → a ≡ replied none
unfolding attempt_error
attempt_error-replied (replied o) h = ap replied h
attempt_error-replied deadline_exceeded h = cc
attempt_error-replied canceled h = cc

module _ {F L : Type 0} (lib : Library F L) where
  stored_as-Keeps :
      (report : Report) (refusal : Error → Report) (s : Store) (m : Result Error Store)
      → ((t : Store) → m ≡ ok t → Keeps s t)
      → Keeps s (stored_as lib report refusal s m).1
  stored_as-Keeps report refusal s (ok t) h = h t refl
  stored_as-Keeps report refusal s (err x) h = λ outbox destination e found done. found

  settle_attempt-Keeps :
      (c : ClaimedDelivery) (now : ℕ) (f : SendError) (s : Store)
      → Keeps s (settle_attempt lib c now (some f) s).1
  unfolding settle_attempt
  settle_attempt-Keeps c now f s = stored_as-Keeps _ _ s _ (
      mark_delivery_failed-Keeps c.outbox_id c.destination_id c.lease_owner f.message (to_ms now) _
        _ s)

  stored_as-row :
      (report : Report) (refusal : Error → Report) (c : ClaimedDelivery) (x y : Text) (now : ℕ)
      (s : Store) (m : Result Error Store) (e : OutboxDelivery)
      → mark_delivered c.outbox_id c.destination_id c.lease_owner (to_ms now) s ≡ m
      → find (is_row x y) (stored_as lib report refusal s m).1.outbox.deliveries ≡ some e
      → (find (is_row x y) s.outbox.deliveries ≡ some e)
        ⊎ (is_row c.outbox_id c.destination_id e ≡ true)
  stored_as-row report refusal c x y now s (ok t) e h found =
      mark_delivered-row c.outbox_id c.destination_id c.lease_owner x y (to_ms now) s t e h found
  stored_as-row report refusal c x y now s (err r) e h found = inl found

  -- A row that is delivered after a turn, and was not before, comes from an answer without an error.
  abbrev Sent : ClaimedDelivery → Option SendError → Result SendError ℕ → Store → Store → Type 0
  Sent c o r s t =
      (outbox destination : Text) (e : OutboxDelivery)
      → find (is_row outbox destination) t.outbox.deliveries ≡ some e
      → e.status ≡ delivered
      → (find (is_row outbox destination) s.outbox.deliveries ≡ some e)
        ⊎ ((r ≡ ok 0) × (o ≡ none) × (is_row c.outbox_id c.destination_id e ≡ true))

  settle_attempt-Sent :
      (c : ClaimedDelivery) (now : ℕ) (o : Option SendError) (s : Store)
      → Sent c o (ok 0) s (settle_attempt lib c now o s).1
  unfolding settle_attempt
  settle_attempt-Sent c now (some f) s =
      λ x y e found done. inl (settle_attempt-Keeps c now f s x y e found done)
  settle_attempt-Sent c now none s = λ x y e found done.
      elim (stored_as-row _ _ c x y now s _ e refl found) [
        | inl before ↦ inl before
        | inr mine ↦ inr (refl, refl, mine)
      ]

  after_reserve-Sent :
      (c : ClaimedDelivery) (k : SendConditions) (r : Result SendError ℕ) (s : Store)
      → Sent c (attempt_error k.attempt) r s (after_reserve lib c k r s).1
  after_reserve-Sent c k (err f) s =
      λ x y e found done. inl (settle_attempt-Keeps c k.settled_at f s x y e found done)
  after_reserve-Sent c k (ok delay) s = elim (Bool-cases (ltb 0 delay)) [
    | inl throttled ↦ rw throttled (λ x y e found done. inl (
        stored_as-Keeps _ _ s _
          (defer_delivery-Keeps c.outbox_id c.destination_id c.lease_owner _ s) x y e found done))
    | inr free ↦
        let zero : delay ≡ 0 = ground arith in
        rw zero (settle_attempt-Sent c k.settled_at (attempt_error k.attempt) s)
  ]

  -- A row that is delivered after a send, and was not before, is the row of the claimed delivery;
  -- its destination's limiter let the send through, and the call of `Send` returned nil in time.
  pub send_one-delivered :
      (c : ClaimedDelivery) (k : SendConditions) (limits : List (Limiter L)) (s : Store)
      (outbox destination : Text) (e : OutboxDelivery)
      → find (is_row outbox destination) (send_one lib c k limits s).2.outbox.deliveries ≡ some e
      → e.status ≡ delivered
      → (find (is_row outbox destination) s.outbox.deliveries ≡ some e)
        ⊎ (((reserve_destination lib c k.reserved_at limits).0 ≡ ok 0)
            × (k.attempt ≡ replied none)
            × (is_row c.outbox_id c.destination_id e ≡ true))
  unfolding send_one
  send_one-delivered c k limits s x y e found done =
      elim (after_reserve-Sent c k (reserve_destination lib c k.reserved_at limits).0 s x y e found
        done) [
          | inl before ↦ inl before
          | inr (free, answer, mine) ↦ inr (free, attempt_error-replied k.attempt answer, mine)
        ]
