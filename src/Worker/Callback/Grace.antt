-- ===== src/Worker/Callback/Grace.antt =====
-- supervisor.go, `runCallback`: when the loop leaves a callback that still runs.
use monitord.Base.{
  ℕ, ◌≤◌, ◌<◌, ◌≡◌, ◌≢◌, refl, ap, subst, Bool, true, false, Option, none, some, [], ◌∷◌, ◌||◌, any,
  arith, if◌then◌else◌,
}
use monitord.Worker.Callback.{
  Kind, is_canceled, panicked, uncertain, deferred, reported, canceled, deadline_exceeded, Outcome,
  is_still_running, kinds, Phase, watching, awaiting, unwinding, returned, System, begin, pass,
  send_result, stop, time_out, end, settlement_fires, unwind_until, unwind, Move, passes, begins,
  ends, finishes, stops, times_out, gets_result, gets_changed, settles, gets_done, awaits,
  unwinds_result, unwinds_changed, unwinds_time, Reach, here, next, is_over, first_cause, other,
  still_running,
}

abbrev pub has_still_running : Outcome → Bool
has_still_running o = any is_still_running (kinds o)

-- What the loop's position says of the callback.
abbrev PhaseHolds : System → Phase → Type 0
PhaseHolds s (watching t) = Unit
PhaseHolds s awaiting = Unit
PhaseHolds s (unwinding cause t) =
    (s.context ≢ none) × ((d : ℕ) → s.deadline ≡ some d → d ≤ t) × (is_canceled cause ≡ false)
PhaseHolds s (returned o) =
    s.result ≡ none → (has_still_running o ≡ true) × (any is_canceled (kinds o) ≡ false)

-- Only the daemon's stop cancels the callback's context; the timeout has another error.
abbrev CancelHolds : System → Type 0
CancelHolds s = s.stopped ≡ false → s.context ≢ some canceled

abbrev Holds : System → Type 0
Holds s = CancelHolds s × PhaseHolds s s.phase

-- A move of the callback, the clock or the daemon leaves the position as it is.
phase-keeps :
    (s t : System) (p : Phase)
    → (s.context ≢ none → t.context ≢ none)
    → (s.context ≢ none → (d : ℕ) → t.deadline ≡ some d → s.deadline ≡ some d)
    → (t.result ≡ none → s.result ≡ none)
    → PhaseHolds s p
    → PhaseHolds t p
phase-keeps s t (watching _) hc hd hr h = h
phase-keeps s t awaiting hc hd hr h = h
phase-keeps s t (unwinding cause u) hc hd hr h = (hc h.0, λ d e. h.1 d (hd h.0 d e), h.2)
phase-keeps s t (returned o) hc hd hr h = λ e. h (hr e)

first_cause-some : (o : Option Kind) (k : Kind) → first_cause o k ≢ none
first_cause-some none k = λ e. cc
first_cause-some (some old) k = λ e. cc

first_cause-timeout :
    (o : Option Kind) → o ≢ some canceled → first_cause o deadline_exceeded ≢ some canceled
first_cause-timeout none h = λ e. cc
first_cause-timeout (some old) h = h

not_canceled : (k : Kind) → some k ≢ some canceled → is_canceled k ≡ false
not_canceled canceled h = absurd (h refl)
not_canceled other h = refl
not_canceled deadline_exceeded h = refl
not_canceled panicked h = refl
not_canceled uncertain h = refl
not_canceled still_running h = refl
not_canceled deferred h = refl
not_canceled reported h = refl

unwind_until-after : (now d : ℕ) (o : Option ℕ) → o ≡ some d → d ≤ unwind_until now o
unwind_until-after now d none e = cc
unwind_until-after now d (some u) e = ground arith

unwind-holds :
    (cause : Kind) (s : System)
    → s.context ≢ none
    → is_canceled cause ≡ false
    → PhaseHolds s (unwind cause s).phase
unwind-holds cause s h k = (h, λ d. unwind_until-after s.now d s.deadline, k)

settlement_fires-holds :
    (s : System) (b : Bool)
    → PhaseHolds s (if b then returned (some (still_running ∷ other ∷ [])) else watching none)
settlement_fires-holds s true = λ e. (refl, refl)
settlement_fires-holds s false = tt

context_done-Holds :
    (cause : Kind) (s : System) (b : Bool)
    → s.stopped ≡ b
    → s.context ≡ some cause
    → CancelHolds s
    → Holds (if b then record s { phase = awaiting } else unwind cause s)
context_done-Holds cause s true b e h = (h, tt)
context_done-Holds cause s false b e h = (
  h,
  unwind-holds cause s (λ n. cc) (not_canceled cause (subst (λ o. o ≢ some canceled) e (h b))),
)

Move-Holds : {timeout from : ℕ} {s t : System} → Move timeout from s t → Holds s → Holds t
Move-Holds {s = s} (passes n) h =
    (h.0, phase-keeps s (pass n s) s.phase (λ c. c) (λ c d e. e) (λ e. e) h.1)
Move-Holds {s = s} (begins r c) h =
    (h.0, phase-keeps s (begin s) s.phase (λ c. c) (λ live d e. absurd (live c)) (λ e. e) h.1)
Move-Holds {s = s} (ends r) h =
    (h.0, phase-keeps s (end s) s.phase (λ c. c) (λ c d e. cc) (λ e. e) h.1)
Move-Holds {s = s} (finishes o r) h =
    (h.0, phase-keeps s (send_result o s) s.phase (λ c. c) (λ c d e. e) (λ e. cc) h.1)
Move-Holds {s = s} stops h = (
  λ e. cc,
  phase-keeps s (stop s) s.phase (λ c. first_cause-some s.context canceled) (λ c d e. e) (λ e. e)
      h.1,
)
Move-Holds {s = s} (times_out p l) h = (
  λ e. first_cause-timeout s.context (h.0 e),
  phase-keeps s (time_out s) s.phase (λ c. first_cause-some s.context deadline_exceeded)
      (λ c d e. e) (λ e. e) h.1,
)
Move-Holds (gets_result t o p r) h = (h.0, λ e. cc)
Move-Holds (gets_changed t p c) h = (h.0, tt)
Move-Holds {s = s} (settles t p l) h =
    (h.0, settlement_fires-holds (settlement_fires s) (is_over s.now s.deadline))
Move-Holds {s = s} (gets_done t cause p e) h = context_done-Holds cause s s.stopped refl e h.0
Move-Holds (awaits o p r) h = (h.0, λ e. cc)
Move-Holds (unwinds_result cause t o p r) h = (h.0, λ e. cc)
Move-Holds {s = s} (unwinds_changed cause t p c) h =
    let at = subst (PhaseHolds s) p h.1 in
    (h.0, unwind-holds cause (record s { notified = false }) at.0 at.2)
Move-Holds {s = s} (unwinds_time cause t p l) h =
    (h.0, λ e. (refl, ap (λ b. b || false) (subst (PhaseHolds s) p h.1).2))

pub Reach-Holds : {timeout from : ℕ} {s : System} → Reach timeout from s → Holds s
Reach-Holds here = (λ e n. cc, tt)
Reach-Holds (next r m) = Move-Holds m (Reach-Holds r)

-- Once the loop of `runCallback` has returned while the callback has sent no result, the error that
-- it returned is marked as that of a callback that still runs: in every interleaving of the loop with
-- the callback, the clock and the daemon's stop.
pub returned-still_running :
    (timeout from : ℕ) (s : System) (o : Outcome)
    → Reach timeout from s
    → s.phase ≡ returned o
    → s.result ≡ none
    → has_still_running o ≡ true
returned-still_running timeout from s o r p n = (subst (PhaseHolds s) p (Reach-Holds r).1 n).0

pub returned-not_canceled :
    {timeout from : ℕ} {s : System} (o : Outcome)
    → Reach timeout from s
    → s.phase ≡ returned o
    → s.result ≡ none
    → any is_canceled (kinds o) ≡ false
returned-not_canceled {s = s} o r p n = (subst (PhaseHolds s) p (Reach-Holds r).1 n).1

abbrev pub is_returned : Phase → Bool
is_returned (returned o) = true
is_returned _ = false

overdue : (now d : ℕ) (o : Option ℕ) → o ≡ some d → now < d → is_over now o ≡ false
overdue now d none e l = cc
overdue now d (some u) e l = ground arith

settlement_fires-early :
    (s : System) → is_over s.now s.deadline ≡ false → (settlement_fires s).phase ≡ watching none
settlement_fires-early s e = rw e

context_done-stays :
    (cause : Kind) (s : System) (b : Bool)
    → is_returned (if b then record s { phase = awaiting } else unwind cause s).phase ≡ false
context_done-stays cause s true = refl
context_done-stays cause s false = refl

Move-grace :
    {timeout from : ℕ} {s t : System} (d : ℕ)
    → Move timeout from s t
    → Holds s
    → s.deadline ≡ some d
    → s.now < d
    → is_returned s.phase ≡ false
    → is_returned t.phase ≡ true
    → s.result ≢ none
Move-grace d (passes n) h e l a b = cc
Move-grace d (begins r c) h e l a b = cc
Move-grace d (ends r) h e l a b = cc
Move-grace d (finishes o r) h e l a b = cc
Move-grace d stops h e l a b = cc
Move-grace d (times_out p u) h e l a b = cc
Move-grace d (gets_result t o p r) h e l a b = λ n. cc
Move-grace d (gets_changed t p c) h e l a b = cc
Move-grace {s = s} d (settles t p u) h e l a b =
    λ n. cc (ap is_returned (settlement_fires-early s (overdue s.now d s.deadline e l)), b)
Move-grace {s = s} d (gets_done t cause p c) h e l a b =
    λ n. cc (context_done-stays cause s s.stopped, b)
Move-grace d (awaits o p r) h e l a b = λ n. cc
Move-grace d (unwinds_result cause t o p r) h e l a b = λ n. cc
Move-grace d (unwinds_changed cause t p c) h e l a b = λ n. cc
Move-grace {s = s} d (unwinds_time cause t p u) h e l a b =
    absurd (omega (arith, (subst (PhaseHolds s) p h.1).1 d e))

-- While a commit that the callback has begun is within its thirty seconds, the loop does not return
-- before the callback has sent its result: not at the callback's own deadline, nor at the daemon's
-- stop, nor at a settlement timer that an earlier commit has left.
pub return-grace :
    (timeout from d : ℕ) (s t : System)
    → Reach timeout from s
    → Move timeout from s t
    → s.deadline ≡ some d
    → s.now < d
    → is_returned s.phase ≡ false
    → is_returned t.phase ≡ true
    → s.result ≢ none
return-grace timeout from d s t r m = Move-grace d m (Reach-Holds r)
