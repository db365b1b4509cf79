-- ===== src/Tests/Events.antt =====
-- The event source: two logs of one block over two lives, and a range that wraps.
use monitord.Base.{
  ◌+◌, ◌-◌, ◌^◌, ◌≤◌, ◌<◌, ◌≡◌, refl, inr, ◌⊎◌, true, false, none, some, [], ◌∷◌, ◌++◌, map, arith,
  text_eq,
}
use monitord.Evm.Blocks.{unavailable, following}
use monitord.Evm.Events.{
  Log, EventsCursor, Endpoint, Progress, Save, kept, lost, confirm, reconciled, replay_logs,
  deliver_log, save_progress, without,
}
use monitord.Evm.Events.Pending.{pending}
use monitord.Evm.Events.Resumed.{restart, lives_of, lives_of-delivered}
use monitord.Evm.Events.Reconcile.{RangeSettings, range_size, last_block}
use monitord.Evm.Events.Bounds.{last_block-bounds}
use monitord.Evm.Events.Journal.{Fits}
use monitord.Evm.Events.Follow.{hears, reconciles, starts, follow, follow-Fits}

abbrev first_log : Log
first_log = record {
  number = 5;
  hash = 1 ∷ [];
  tx_hash = 2 ∷ [];
  tx_index = 0;
  index = 0;
  payload = [];
  removed = false;
  confirmed = false;
}

abbrev second_log : Log
second_log = record first_log { index = 1 }

-- Every call succeeds but the commits.
abbrev endpoint : Save → Endpoint
endpoint o = record {
  head = λ m. some 20;
  reply = λ m n. unavailable;
  logs = λ m a b. some (first_log ∷ second_log ∷ []);
  handles = λ m l. true;
  save = λ m. o;
}

abbrev cursor : EventsCursor
cursor = record { next_block = 5; canonical_parent = []; current_block = []; next_log = 0 }

abbrev progress : Progress
progress = record {
  cursor = cursor;
  saved_cursor = cursor;
  live_logs = [];
  saved_live = [];
  delivered = [];
  moment = 0;
}

abbrev after_crash : Progress
after_crash = lives_of (endpoint (lost true) ∷ []) (first_log ∷ second_log ∷ []) progress

completed :
    (replay_logs (endpoint kept) (first_log ∷ second_log ∷ []) (restart after_crash)).1 ≡ none
unfolding lives_of replay_logs deliver_log save_progress reconciled without following text_eq
completed = refl

lives_of-delivered_example :
    (replay_logs (endpoint kept) (first_log ∷ second_log ∷ []) (restart after_crash)).0.delivered
    ≡ [] ++ map confirm (pending cursor (first_log ∷ second_log ∷ []))
lives_of-delivered_example =
    lives_of-delivered (endpoint (lost true) ∷ []) (endpoint kept) (first_log ∷ second_log ∷ [])
      progress (omega arith, (inr (refl, refl, omega arith), tt), (omega arith, tt, tt)) completed

abbrev unlimited : RangeSettings
unlimited = record { confirmations = 12; backfill_range = 2 ^ 64 - 1 }

last_block-bounds_example :
    ((100 + range_size unlimited ≤ 2 ^ 64)
      × (100 ≤ last_block unlimited 100 200)
      × (last_block unlimited 100 200 ≤ 200)
      × (last_block unlimited 100 200 < 100 + range_size unlimited))
    ⊎ ((2 ^ 64 < 100 + range_size unlimited) × (last_block unlimited 100 200 < 100))
last_block-bounds_example =
    last_block-bounds unlimited 100 200 (omega arith) (omega arith) (omega arith)

follow-Fits_example :
    Fits (follow (endpoint kept) unlimited (hears first_log ∷ reconciles ∷ starts ∷ []) progress)
follow-Fits_example =
    follow-Fits (endpoint kept) unlimited (hears first_log ∷ reconciles ∷ starts ∷ []) progress
      (omega arith, omega arith)
