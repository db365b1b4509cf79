-- ===== src/Daemon/Delivery.antt =====
-- internal/daemon/outbox.go: the worker that sends the deliveries it has claimed. Times are
-- nanoseconds here, and milliseconds in the store. The call of `Send` is the attempt that is given.
pub mod Process
pub mod Refinement
pub mod Settled
pub mod Backoff
use monitord.Base.{
  ℕ, ◌+◌, ◌-◌, ◌*◌, ◌/◌, ◌%◌, ◌^◌, ◌==◌, ltb, leb, min, Text, text_eq, codes, Bool, true, false,
  not, ◌&&◌, ◌||◌, Option, none, some, List, [], ◌∷◌, ◌++◌, if◌then◌else◌, Result, ok, err, ℤ, pos,
  is_positive, is_zero, pos_part,
}
use monitord.Base.Table.{find, delete}
use monitord.Storage.Schema.{Error, Store}
use monitord.Storage.Outbox.{
  ClaimedDelivery, claim_outbox, mark_delivered, defer_delivery, mark_delivery_failed,
}
use monitord.Daemon.Destination.{
  Classified, SendError, permanent_delivery_error, permanent_status, delivery_http_error, response,
  RateLimit, Reservation, Library, Limiter, valid_rate, is_key, limiter_of, set_limiter, reserved,
  reserve_destination,
}

abbrev pub second : ℕ
second = 10 ^ 9

abbrev pub to_ms : ℕ → ℕ
to_ms t = t / 10 ^ 6

abbrev pub outbox_lease : ℕ
outbox_lease = 30 * second + 5 * second

abbrev pub outbox_batch : ℕ
outbox_batch = 32

abbrev pub outbox_base_backoff : ℕ
outbox_base_backoff = 2 * second

abbrev pub outbox_max_backoff : ℕ
outbox_max_backoff = 15 * 60 * second

-- math.MaxInt.
abbrev pub max_int : ℕ
max_int = 2 ^ 63 - 1

-- What the select of an attempt gets: the answer of `Send`, or the error of the attempt's context.
pub data Attempt : Type 0 where
  replied : Option SendError → Attempt
  deadline_exceeded canceled : Attempt

unfoldable pub attempt_error : Attempt → Option SendError
attempt_error (replied o) = o
attempt_error deadline_exceeded =
    some (record {
      message = codes "context deadline exceeded";
      classified = none;
      is_canceled = false;
    })
attempt_error canceled =
    some (record { message = codes "context canceled"; classified = none; is_canceled = true })

-- Signed 64-bit arithmetic on numbers that are not negative, as long as the result stays below 2 ^ 63.
abbrev pub wrap : ℕ → ℕ
wrap n = n % 2 ^ 64

unfoldable pub cap_delay : ℤ → ℕ
cap_delay attempt =
    min (wrap (outbox_base_backoff * wrap (2 ^ min (pos_part attempt) 20))) outbox_max_backoff

unfoldable pub retry_delay : (ℕ → ℕ) → ℤ → ℕ
unfolding cap_delay
retry_delay int64_n attempt =
    let cap = cap_delay attempt in if leb cap (10 ^ 6) then cap else int64_n cap

-- The delay and the number of attempts after an error.
abbrev pub delay_of : ℕ → Option Classified → ℕ
delay_of jitter none = jitter
delay_of jitter (some k) =
    if is_positive k.retry_after then min (pos_part k.retry_after) outbox_max_backoff else jitter

abbrev pub max_attempts_of : Option Classified → ℕ
max_attempts_of none = max_int
max_attempts_of (some k) = if k.permanent then 1 else max_int

-- The times at which a send reads the clock, and what its attempt comes to.
pub record SendConditions : Type 0 where
  pub reserved_at : ℕ
  pub settled_at : ℕ
  pub attempt : Attempt

-- nil, or the error that `sendOne` returns.
pub data Report : Type 0 where
  done failed : Report
  refused : Error → Report
  unrecorded : Error → Report

module _ {F L : Type 0} (lib : Library F L) where
  -- The statement's outcome as the tables after it and the error that is returned.
  abbrev pub stored_as : Report → (Error → Report) → Store → Result Error Store → Report × Store
  stored_as report refusal s (ok t) = (report, t)
  stored_as report refusal s (err e) = (refusal e, s)

  -- From the second `w.now()` on: the end of an attempt, or an error before it.
  unfoldable pub settle_attempt : ClaimedDelivery → ℕ → Option SendError → Store → Report × Store
  unfolding mark_delivered mark_delivery_failed retry_delay
  settle_attempt c now none s =
      stored_as done refused s
        (mark_delivered c.outbox_id c.destination_id c.lease_owner (to_ms now) s)
  settle_attempt c now (some f) s =
      let delay = delay_of (retry_delay lib.int64_n (pos c.attempt_count)) f.classified in
      stored_as (if f.is_canceled then done else failed) unrecorded s (
        mark_delivery_failed c.outbox_id c.destination_id c.lease_owner f.message (to_ms now)
          (to_ms (now + delay)) (max_attempts_of f.classified) s)

  abbrev pub after_reserve :
      ClaimedDelivery → SendConditions → Result SendError ℕ → Store → Report × Store
  after_reserve c k (err f) s = settle_attempt c k.settled_at (some f) s
  after_reserve c k (ok delay) s =
      if ltb 0 delay
      then stored_as done refused s (
          defer_delivery c.outbox_id c.destination_id c.lease_owner (to_ms (k.settled_at + delay))
            s)
      else settle_attempt c k.settled_at (attempt_error k.attempt) s

  -- `sendOne`: what it returns, the limiters and the tables after it.
  unfoldable pub send_one :
      ClaimedDelivery
      → SendConditions
      → List (Limiter L)
      → Store
      → Report × List (Limiter L) × Store
  unfolding reserve_destination settle_attempt attempt_error defer_delivery
  send_one c k limits s =
      let r = reserve_destination lib c k.reserved_at limits in
      let out = after_reserve c k r.0 s in (out.0, r.1, out.1)
