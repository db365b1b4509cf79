-- ===== src/Worker/Rounds/Cleanup.antt =====
-- supervisor.go and runtime.go: when the stop hook runs beside a callback that still runs.
use monitord.Base.{
  ℕ, ◌≡◌, ◌≢◌, refl, Bool, true, false, ◌||◌, none, some, List, [], ◌∷◌, any, arith, if◌then◌else◌,
}
use monitord.Worker.Callback.{
  RunError, other, reported, Outcome, kinds, returned, Reach, awaited, is_canceled,
  is_still_running,
}
use monitord.Worker.Callback.Grace.{
  has_still_running, returned-still_running, returned-not_canceled,
}
use monitord.Worker.Rounds.{
  Round, Ran, Plan, polling, continuous, run_plan, run_returned, failure, Exit, poll, poll_round,
  after_report, report_failure, is_failed, RunStatus, status_of, as_reported, plan_ended, serve,
  leave,
}

-- The round's system is one that the loop of `runCallback` comes to, and its outcome what it returns.
pub record IsRound (timeout : ℕ) (r : Round) : Type 0 where
  pub from : ℕ
  pub course : Reach timeout from r.last
  pub left : r.last.phase ≡ returned r.outcome
  pub delivered : r.report ≡ none

abbrev pub Each : (Round → Type 0) → List Round → Type 0
Each P [] = Unit
Each P (r ∷ rs) = P r × Each P rs

-- The callback has returned.
abbrev pub IsFinished : Round → Type 0
IsFinished r = r.last.result ≢ none

IsRound-IsFinished :
    (timeout : ℕ) (r : Round)
    → IsRound timeout r
    → has_still_running r.outcome ≡ false
    → IsFinished r
IsRound-IsFinished timeout r h s =
    λ e. cc (returned-still_running timeout h.from r.last r.outcome h.course h.left e)

awaited-still_running :
    (o : Outcome)
    → any is_canceled (kinds o) ≡ false
    → has_still_running (awaited o) ≡ has_still_running o
awaited-still_running none h = refl
awaited-still_running (some e) h = rw h

IsRound-awaited-IsFinished :
    (timeout : ℕ) (r : Round)
    → IsRound timeout r
    → has_still_running (awaited r.outcome) ≡ false
    → IsFinished r
IsRound-awaited-IsFinished timeout r h s = λ e. cc (
  returned-still_running timeout h.from r.last r.outcome h.course h.left e,
  awaited-still_running r.outcome (returned-not_canceled r.outcome h.course h.left e),
)

-- If the plan has returned an error other than that of a running callback, its calls are finished.
abbrev IsSafe : Ran → Type 0
IsSafe ran =
    (o : Outcome) → ran.ended ≡ some o → has_still_running o ≡ false → Each IsFinished ran.calls

leave-IsSafe :
    (r : Round) (reports : List RunStatus) (p : Outcome)
    → (has_still_running p ≡ false → IsFinished r)
    → IsSafe (leave r reports p)
leave-IsSafe r reports p h o e s = (h (cc), tt)

branch-IsSafe :
    (b : Bool) (x y : Ran)
    → (b ≡ true → IsSafe x)
    → (b ≡ false → IsSafe y)
    → IsSafe (if b then x else y)
branch-IsSafe true x y hx hy = hx refl
branch-IsSafe false x y hx hy = hy refl

as_reported-still_running : (o : Outcome) → has_still_running (as_reported o) ≡ has_still_running o
as_reported-still_running none = refl
as_reported-still_running (some e) = refl

not_failed : (once : Bool) (o : Outcome) → is_failed once o ≡ false → has_still_running o ≡ false
not_failed once none h = refl
not_failed once (some e) h = ground arith

after_report-IsSafe :
    (timeout : ℕ) (once : Bool) (r : Round) (rest : Ran)
    → IsRound timeout r
    → IsSafe rest
    → IsSafe (after_report once r rest)
after_report-IsSafe timeout once r rest h ih =
    branch-IsSafe (is_failed once r.outcome) _ _
      (λ f.
        leave-IsSafe r (status_of r.outcome ∷ []) _
          (λ s. IsRound-IsFinished timeout r h (cc (as_reported-still_running r.outcome))))
      (λ f.
        let done = IsRound-IsFinished timeout r h (not_failed once r.outcome f) in
        branch-IsSafe once _ _ (λ b. leave-IsSafe r (status_of r.outcome ∷ []) _ (λ s. done))
          (λ b.
            branch-IsSafe r.goes_on _ _ (λ w o e s. (done, ih o e s))
              (λ w. leave-IsSafe r (status_of r.outcome ∷ []) _ (λ s. done))))

poll_round-IsSafe :
    (timeout : ℕ) (once : Bool) (r : Round) (rest : Ran)
    → IsRound timeout r
    → IsSafe rest
    → IsSafe (poll_round once r rest)
poll_round-IsSafe timeout once r rest h ih =
    branch-IsSafe r.last.stopped _ _
      (λ b. leave-IsSafe r [] _ (IsRound-awaited-IsFinished timeout r h))
      (λ b. rw h.delivered (after_report-IsSafe timeout once r rest h ih))

poll-IsSafe :
    (timeout : ℕ) (once : Bool) (rs : List Round)
    → Each (IsRound timeout) rs
    → IsSafe (poll once rs)
unfolding poll
poll-IsSafe timeout once [] h = λ o e s. tt
poll-IsSafe timeout once (r ∷ rs) h =
    poll_round-IsSafe timeout once r (poll once rs) h.0 (poll-IsSafe timeout once rs h.1)

report_failure-IsSafe :
    (r : Round) (e : RunError)
    → r.report ≡ none
    → (any is_still_running e ≡ false → IsFinished r)
    → IsSafe (report_failure r e)
report_failure-IsSafe r e d h = rw d (leave-IsSafe r (failure ∷ []) (some (reported ∷ e)) h)

run_returned-IsSafe :
    (r : Round) (o : Outcome)
    → r.report ≡ none
    → (has_still_running o ≡ false → IsFinished r)
    → IsSafe (run_returned r o)
run_returned-IsSafe r none d h =
    branch-IsSafe (r.last.stopped || r.stops_later) _ _ (λ b. leave-IsSafe r [] none h)
      (λ b. report_failure-IsSafe r (other ∷ []) d (λ s. h refl))
run_returned-IsSafe r (some e) d h =
    branch-IsSafe (r.last.stopped || r.stops_later) _ _ (λ b. leave-IsSafe r [] (some e) h)
      (λ b. report_failure-IsSafe r e d h)

run_plan-IsSafe :
    (timeout : ℕ) (plan : Plan) (once : Bool) (rs : List Round)
    → Each (IsRound timeout) rs
    → IsSafe (run_plan plan once rs)
unfolding run_plan
run_plan-IsSafe timeout polling once rs h = poll-IsSafe timeout once rs h
run_plan-IsSafe timeout continuous once [] h = poll-IsSafe timeout once [] h
run_plan-IsSafe timeout continuous once (r ∷ rs) h =
    run_returned-IsSafe r r.outcome h.0.delivered (IsRound-IsFinished timeout r h.0)

hook_off :
    (b : Bool) (x y : Exit)
    → x.hook_called ≡ false
    → (if b then x else y).hook_called ≡ true
    → b ≡ false
hook_off true x y h e = cc
hook_off false x y h e = refl

-- Where a worker leaves because its plan has ended, and its reports could be sent, a call of the stop
-- hook finds the start hook returned without an error, and every callback that the plan called
-- returned: whatever the timeout, the kind of plan, and the course of each call.
pub serve-stop_hook :
    (timeout : ℕ) (plan : Plan) (once : Bool) (rs : List Round) (start run_err stop_err : Outcome)
    → Each (IsRound timeout) rs
    → (run_plan plan once rs).ended ≡ some run_err
    → (serve start none plan_ended run_err stop_err).hook_called ≡ true
    → (start ≡ none) × Each IsFinished (run_plan plan once rs).calls
unfolding serve
serve-stop_hook timeout plan once rs (some e) run_err stop_err h ended hook = cc
serve-stop_hook timeout plan once rs none run_err stop_err h ended hook = (
  refl,
  run_plan-IsSafe timeout plan once rs h run_err ended
      (hook_off (has_still_running run_err) _ _ refl hook),
)
