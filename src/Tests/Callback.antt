-- ===== src/Tests/Callback.antt =====
-- A callback that commits, a plan of one round, and a stop request in the middle of one.
use monitord.Base.{◌≡◌, ◌≢◌, refl, true, false, none, some, [], ◌∷◌, arith}
use monitord.Worker.Callback.{
  Outcome, System, called_at, begin, send_result, take_result, Reach, here, next, begins, finishes,
  gets_result,
}
use monitord.Worker.Callback.Grace.{return-grace}
use monitord.Worker.Rounds.{Round, polling, run_plan, poll, stop_requested, serve}
use monitord.Worker.Rounds.Cleanup.{IsRound, Each, IsFinished, serve-stop_hook}
use monitord.Worker.Rounds.Race.{stop_request-races}

abbrev no_error : Outcome
no_error = none

abbrev committed : System
committed = send_result none (begin (called_at 0))

committed-Reach : Reach 5 0 committed
committed-Reach = next (next here (begins refl refl)) (finishes none refl)

return-grace_example : committed.result ≢ none
return-grace_example =
    return-grace 5 0 30000 committed (take_result none committed) committed-Reach
      (gets_result none none refl refl) refl (omega arith) refl refl

abbrev single_round : Round
single_round = record {
  last = take_result none committed;
  outcome = none;
  stops_later = false;
  report = none;
  goes_on = true;
}

single_round-IsRound : IsRound 5 single_round
single_round-IsRound = record {
  from = 0;
  course = next committed-Reach (gets_result none none refl refl);
  left = refl;
  delivered = refl;
}

serve-stop_hook_example : (no_error ≡ none) × Each IsFinished (single_round ∷ [])
unfolding run_plan poll serve
serve-stop_hook_example =
    serve-stop_hook 5 polling true (single_round ∷ []) none none none (single_round-IsRound, tt)
      refl refl

stop_request-races_example :
    (r : Round) × IsRound 5 r
    × (r.last.result ≡ none)
    × ((run_plan polling false (r ∷ [])).ended ≡ some r.outcome)
    × ((serve none none stop_requested r.outcome none).hook_called ≡ true)
stop_request-races_example = stop_request-races 5 polling false none (omega arith)
