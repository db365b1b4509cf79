-- ===== src/Worker/Rounds/Race.antt =====
-- supervisor.go and runtime.go: a stop request while a callback that has passed its deadline runs on.
use monitord.Base.{ℕ, ◌+◌, ◌<◌, ◌≡◌, refl, Bool, true, none, some, [], ◌∷◌, arith}
use monitord.Worker.Callback.{
  deadline_exceeded, still_running, System, returned, called_at, pass, time_out, stop, unwind,
  Reach, here, next, passes, times_out, gets_done, stops, unwinds_time, Outcome,
}
use monitord.Worker.Rounds.{Round, Plan, polling, continuous, run_plan, poll, stop_requested, serve}
use monitord.Worker.Rounds.Cleanup.{IsRound}

abbrev late : ℕ → System
late timeout = unwind deadline_exceeded (time_out (pass timeout (called_at 0)))

abbrev abandoned : Outcome
abandoned = some (still_running ∷ deadline_exceeded ∷ [])

-- The callback goes on past its timeout, the daemon asks for a stop, and the loop gives up.
abbrev left_running : ℕ → System
left_running timeout = record (pass 100 (stop (late timeout))) { phase = returned abandoned }

late-Reach : (timeout : ℕ) → 0 < timeout → Reach timeout 0 (late timeout)
late-Reach timeout h =
    next (next (next here (passes timeout)) (times_out h (omega arith)))
      (gets_done none deadline_exceeded refl refl)

left_running-Reach : (timeout : ℕ) → 0 < timeout → Reach timeout 0 (left_running timeout)
left_running-Reach timeout h =
    next (next (next (late-Reach timeout h) stops) (passes 100))
      (unwinds_time deadline_exceeded (0 + timeout + 100) refl (omega arith))

abbrev abandoned_round : ℕ → Round
abandoned_round timeout = record {
  last = left_running timeout;
  outcome = abandoned;
  stops_later = true;
  report = none;
  goes_on = true;
}

run_plan-abandoned :
    (timeout : ℕ) (plan : Plan) (once : Bool)
    → (run_plan plan once (abandoned_round timeout ∷ [])).ended ≡ some abandoned
unfolding run_plan poll
run_plan-abandoned timeout polling once = refl
run_plan-abandoned timeout continuous once = refl

-- For every positive timeout, plan and choice of `once` there is a course of events in which the
-- callback has sent no result, the plan has ended with the error of a callback that still runs, and
-- the worker, whose `select` takes the daemon's stop request, calls the stop hook.
pub stop_request-races :
    (timeout : ℕ) (plan : Plan) (once : Bool) (stop_err : Outcome)
    → 0 < timeout
    → (r : Round) × IsRound timeout r
      × (r.last.result ≡ none)
      × ((run_plan plan once (r ∷ [])).ended ≡ some r.outcome)
      × ((serve none none stop_requested r.outcome stop_err).hook_called ≡ true)
unfolding serve
stop_request-races timeout plan once stop_err h = (
  abandoned_round timeout,
  record { from = 0; course = left_running-Reach timeout h; left = refl; delivered = refl },
  refl,
  run_plan-abandoned timeout plan once,
  refl,
)
