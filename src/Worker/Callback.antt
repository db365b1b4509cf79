-- ===== src/Worker/Callback.antt =====
-- supervisor.go, `runCallback` and `callbackCommitScope`: the loop that watches a callback while the
-- callback, the clock and the daemon go on. One move is one case of a select of the loop, or one act
-- of the others. Times are milliseconds. An error is the list of the kinds of error that it wraps.
pub mod Grace
use monitord.Base.{
  ℕ, ◌+◌, ◌≤◌, ◌<◌, ◌≡◌, max, Bool, true, false, not, ◌&&◌, ◌||◌, Option, none, some, List, [], ◌∷◌,
  ◌++◌, any, ltb, leb, if◌then◌else◌,
}

pub data Kind : Type 0 where
  other canceled deadline_exceeded panicked uncertain still_running deferred reported : Kind

abbrev pub RunError : Type 0
RunError = List Kind

-- nil, or an error.
abbrev pub Outcome : Type 0
Outcome = Option RunError

abbrev pub is_canceled : Kind → Bool
is_canceled canceled = true
is_canceled _ = false

abbrev pub is_still_running : Kind → Bool
is_still_running still_running = true
is_still_running _ = false

abbrev pub kinds : Outcome → RunError
kinds none = []
kinds (some e) = e

-- Where the loop stands: in the outer select with its settlement timer, waiting for the result after
-- the daemon's stop, in the inner select with its timer, or returned.
pub data Phase : Type 0 where
  watching : Option ℕ → Phase
  awaiting : Phase
  unwinding : Kind → ℕ → Phase
  returned : Outcome → Phase

-- `deadline` and `notified` are the fields of the scope; `stopped` is the error of the daemon's context,
-- `context` that of the callback's; `result` is what the callback has sent.
pub record System : Type 0 where
  pub now : ℕ
  pub stopped : Bool
  pub context : Option Kind
  pub deadline : Option ℕ
  pub notified : Bool
  pub result : Option Outcome
  pub phase : Phase

abbrev pub settlement_timeout : ℕ
settlement_timeout = 30000

abbrev pub called_at : ℕ → System
called_at now = record {
  now = now;
  stopped = false;
  context = none;
  deadline = none;
  notified = false;
  result = none;
  phase = watching none;
}

-- A context keeps its first error.
abbrev pub first_cause : Option Kind → Kind → Option Kind
first_cause none k = some k
first_cause (some old) k = some old

abbrev pub begin : System → System
begin s = record s { deadline = some (s.now + settlement_timeout); notified = true }

abbrev pub pass : ℕ → System → System
pass n s = record s { now = s.now + n }

abbrev pub send_result : Outcome → System → System
send_result o s = record s { result = some o }

abbrev pub stop : System → System
stop s = record s { stopped = true; context = first_cause s.context canceled }

abbrev pub time_out : System → System
time_out s = record s { context = first_cause s.context deadline_exceeded }

abbrev pub end : System → System
end s = record s { deadline = none; notified = true }

-- The timer for what remains until the deadline.
abbrev pub timer_of : ℕ → Option ℕ → Option ℕ
timer_of now none = none
timer_of now (some d) = some (max d now)

abbrev pub take_result : Outcome → System → System
take_result o s = record s { phase = returned (if s.stopped then none else o) }

abbrev pub take_changed : System → System
take_changed s = record s { notified = false; phase = watching (timer_of s.now s.deadline) }

abbrev pub is_over : ℕ → Option ℕ → Bool
is_over now none = false
is_over now (some d) = leb d now

abbrev pub settlement_fires : System → System
settlement_fires s = record s {
  phase =
      if is_over s.now s.deadline
      then returned (some (still_running ∷ other ∷ []))
      else watching none;
}

-- The head of the inner loop: the rest of the deadline, or a short unwind.
abbrev pub unwind_until : ℕ → Option ℕ → ℕ
unwind_until now none = now + 100
unwind_until now (some d) = max d now

abbrev pub unwind : Kind → System → System
unwind cause s = record s { phase = unwinding cause (unwind_until s.now s.deadline) }

abbrev pub context_done : Kind → System → System
context_done cause s = if s.stopped then record s { phase = awaiting } else unwind cause s

-- After the stop, an error that is a cancellation is none.
abbrev pub awaited : Outcome → Outcome
awaited none = none
awaited (some e) = if any is_canceled e then none else some e

-- One move of the callback, the clock or the daemon, or of the loop. The callback's context has a
-- timeout where `timeout` is positive, from the time `from` of the call.
pub data Move (timeout from : ℕ) (s : System) : System → Type 0 where
  passes : (n : ℕ) → Move timeout from s (pass n s)
  begins : s.result ≡ none → s.context ≡ none → Move timeout from s (begin s)
  ends : s.result ≡ none → Move timeout from s (end s)
  finishes : (o : Outcome) → s.result ≡ none → Move timeout from s (send_result o s)
  stops : Move timeout from s (stop s)
  times_out : 0 < timeout → from + timeout ≤ s.now → Move timeout from s (time_out s)
  gets_result :
      (t : Option ℕ) (o : Outcome)
      → s.phase ≡ watching t
      → s.result ≡ some o
      → Move timeout from s (take_result o s)
  gets_changed :
      (t : Option ℕ)
      → s.phase ≡ watching t
      → s.notified ≡ true
      → Move timeout from s (take_changed s)
  settles :
      (t : ℕ) → s.phase ≡ watching (some t) → t ≤ s.now → Move timeout from s (settlement_fires s)
  gets_done :
      (t : Option ℕ) (cause : Kind)
      → s.phase ≡ watching t
      → s.context ≡ some cause
      → Move timeout from s (context_done cause s)
  awaits :
      (o : Outcome)
      → s.phase ≡ awaiting
      → s.result ≡ some o
      → Move timeout from s (record s { phase = returned (awaited o) })
  unwinds_result :
      (cause : Kind) (t : ℕ) (o : Outcome)
      → s.phase ≡ unwinding cause t
      → s.result ≡ some o
      → Move timeout from s (record s { phase = returned (some (cause ∷ kinds o)) })
  unwinds_changed :
      (cause : Kind) (t : ℕ)
      → s.phase ≡ unwinding cause t
      → s.notified ≡ true
      → Move timeout from s (unwind cause (record s { notified = false }))
  unwinds_time :
      (cause : Kind) (t : ℕ)
      → s.phase ≡ unwinding cause t
      → t ≤ s.now
      → Move timeout from s (record s { phase = returned (some (still_running ∷ cause ∷ [])) })

pub data Reach (timeout from : ℕ) : System → Type 0 where
  here : Reach timeout from (called_at from)
  next : {s t : System} → Reach timeout from s → Move timeout from s t → Reach timeout from t
