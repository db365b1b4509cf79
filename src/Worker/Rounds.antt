-- ===== src/Worker/Rounds.antt =====
-- supervisor.go, `runPlan`, and runtime.go, `serveWorker` from the start hook on with `sendStopped`:
-- how a worker's calls of its callback follow each other, and how the worker leaves. What the
-- callbacks do, what the hooks return and whether a frame can be sent is given to the model; the
-- texts of the errors and the durations are left out.
pub mod Cleanup
pub mod Race
use monitord.Base.{
  Bool, true, false, not, ◌&&◌, ◌||◌, Option, none, some, List, [], ◌∷◌, ◌++◌, any, is_some,
  if◌then◌else◌,
}
use monitord.Worker.Callback.{
  Kind, other, panicked, uncertain, deadline_exceeded, deferred, reported, is_still_running,
  RunError, Outcome, kinds, System, awaited,
}

abbrev pub is_panicked : Kind → Bool
is_panicked panicked = true
is_panicked _ = false

abbrev pub is_uncertain : Kind → Bool
is_uncertain uncertain = true
is_uncertain _ = false

abbrev pub is_deferred : Kind → Bool
is_deferred deferred = true
is_deferred _ = false

abbrev pub is_deadline_exceeded : Kind → Bool
is_deadline_exceeded deadline_exceeded = true
is_deadline_exceeded _ = false

abbrev pub is_reported : Kind → Bool
is_reported reported = true
is_reported _ = false

abbrev pub callback_still_running : RunError → Bool
callback_still_running e = any is_still_running e

abbrev pub callback_fatal : RunError → Bool
callback_fatal e = callback_still_running e || any is_panicked e || any is_uncertain e

abbrev pub run_failure_was_reported : RunError → Bool
run_failure_was_reported e = any is_reported e

abbrev pub is_deferral : RunError → Bool
is_deferral e = any is_deferred e && not (callback_fatal e) && not (any is_deadline_exceeded e)

pub data RunStatus : Type 0 where
  success failure deferral : RunStatus

-- One call of `runCallback` as the plan meets it: the system as the plan first asks whether it is
-- stopped, what the call returned, whether a stop comes before the second question (of a continuous
-- plan), what sending the report returns, and whether the plan's interval passes without a stop.
pub record Round : Type 0 where
  pub last : System
  pub outcome : Outcome
  pub stops_later : Bool
  pub report : Outcome
  pub goes_on : Bool

-- The calls made, the reports given to the daemon, and what the plan returned once it has.
pub record Ran : Type 0 where
  pub calls : List Round
  pub reports : List RunStatus
  pub ended : Option Outcome

abbrev pub status_of : Outcome → RunStatus
status_of none = success
status_of (some e) = if is_deferral e then deferral else failure

abbrev pub leave : Round → List RunStatus → Outcome → Ran
leave r reports o = record { calls = r ∷ []; reports = reports; ended = some o }

-- The report of a failure, and then the failure as one that was reported, or the report's own error.
abbrev pub report_failure : Round → RunError → Ran
report_failure r e = elim r.report [
  | none ↦ leave r (failure ∷ []) (some (reported ∷ e))
  | some f ↦ leave r (failure ∷ []) (some f)
]

-- A continuous callback that returns nil while the plan is active has failed as well.
abbrev pub run_returned : Round → Outcome → Ran
run_returned r none =
    if r.last.stopped || r.stops_later then leave r [] none else report_failure r (other ∷ [])
run_returned r (some e) =
    if r.last.stopped || r.stops_later then leave r [] (some e) else report_failure r e

abbrev pub run_continuous : Round → Ran
run_continuous r = run_returned r r.outcome

abbrev pub is_failed : Bool → Outcome → Bool
is_failed once none = false
is_failed once (some e) = not (is_deferral e) && (once || callback_fatal e)

abbrev pub as_reported : Outcome → Outcome
as_reported none = none
as_reported (some e) = some (reported ∷ e)

-- After the report: the plan ends, or goes_on for the interval and goes on as `rest`.
abbrev pub after_report : Bool → Round → Ran → Ran
after_report once r rest =
    if is_failed once r.outcome
    then leave r (status_of r.outcome ∷ []) (as_reported r.outcome)
    else if once
    then leave r (status_of r.outcome ∷ []) none
    else if r.goes_on
    then record {
      calls = r ∷ rest.calls;
      reports = status_of r.outcome ∷ rest.reports;
      ended = rest.ended;
    }
    else leave r (status_of r.outcome ∷ []) none

abbrev pub poll_round : Bool → Round → Ran → Ran
poll_round once r rest = if r.last.stopped then leave r [] (awaited r.outcome) else elim r.report [
  | none ↦ after_report once r rest
  | some f ↦ leave r (status_of r.outcome ∷ []) (some f)
]

-- The loop of a polling plan, over the rounds it may come to.
unfoldable pub poll : Bool → List Round → Ran
poll once [] = record { calls = []; reports = []; ended = none }
poll once (r ∷ rs) = let rest = poll once rs in poll_round once r rest

pub data Plan : Type 0 where
  continuous polling : Plan

unfoldable pub run_plan : Plan → Bool → List Round → Ran
unfolding poll
run_plan polling once rs = poll once rs
run_plan continuous once [] = poll once []
run_plan continuous once (r ∷ rs) = run_continuous r

-- The frame of `sendStopped`, less its text.
pub record StoppedFrame : Type 0 where
  pub clean : Bool
  pub run_failure_reported : Bool

-- Joined errors are nil where both are.
abbrev pub join : Outcome → Outcome → Outcome
join none b = b
join (some e) none = some e
join (some e) (some f) = some (e ++ f)

abbrev pub send_stopped : Outcome → Outcome → StoppedFrame
send_stopped run_err stop_err = record {
  clean = not (is_some (join run_err stop_err));
  run_failure_reported = run_failure_was_reported (kinds run_err);
}

-- What ends the worker: the plan, the daemon's stop request, or the loss of its connection.
pub data Cause : Type 0 where
  plan_ended stop_requested control_failed : Cause

-- Whether the stop hook is called, and the frame that is sent.
pub record Exit : Type 0 where
  pub hook_called : Bool
  pub stopped : Option StoppedFrame

abbrev pub exit_run : Cause → Outcome → Outcome → Exit
exit_run plan_ended run_err stop_err =
    if callback_still_running (kinds run_err)
    then record { hook_called = false; stopped = some (send_stopped run_err none) }
    else record { hook_called = true; stopped = some (send_stopped run_err stop_err) }
exit_run stop_requested run_err stop_err = record {
  hook_called = true;
  stopped = some (send_stopped run_err stop_err);
}
exit_run control_failed run_err stop_err = record { hook_called = false; stopped = none }

-- What the start hook, the sending of the ready frame, the plan and the stop hook return.
unfoldable pub serve : Outcome → Outcome → Cause → Outcome → Outcome → Exit
serve (some e) ready cause run_err stop_err = record {
  hook_called = false;
  stopped = some (record { clean = false; run_failure_reported = false });
}
serve none (some e) cause run_err stop_err = record { hook_called = true; stopped = none }
serve none none cause run_err stop_err = exit_run cause run_err stop_err
