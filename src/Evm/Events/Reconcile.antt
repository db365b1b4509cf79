-- ===== src/Evm/Events/Reconcile.antt =====
-- catalog/quicknode/evm/events.go, `reconcileOne`: one range of history behind the confirmations.
use monitord.Base.{
  ℕ, ◌+◌, ◌-◌, ◌^◌, ◌%◌, ◌==◌, ltb, leb, min, Text, text_eq, Bool, true, not, ◌&&◌, ◌||◌, Option,
  none, some, List, [], ◌∷◌, ◌++◌, any, if◌then◌else◌, sort_by,
}
use monitord.Evm.Blocks.{Reply, unavailable, failed, block, checked, following, is_empty}
use monitord.Evm.Events.{
  Log, same_id, EventsCursor, Endpoint, Progress, EventsFailure, rpc_failed, history_changed,
  log_absent, Ending, caught_up, goes_on, fails, next_moment, save_progress, deliver_log,
  replay_logs, and_then, ending,
}

pub record RangeSettings : Type 0 where
  pub confirmations : ℕ
  pub backfill_range : ℕ

abbrev pub range_size : RangeSettings → ℕ
range_size c = if c.backfill_range == 0 then 10000 else c.backfill_range

-- The last block of the range, on uint64.
unfoldable pub last_block : RangeSettings → ℕ → ℕ → ℕ
last_block c next target = min ((next + range_size c + (2 ^ 64 - 1)) % 2 ^ 64) target

-- The order of sort.Slice: by block, transaction and log.
abbrev pub log_leb : Log → Log → Bool
log_leb a b =
    ltb a.number b.number
    || (a.number == b.number
        && (ltb a.tx_index b.tx_index || (a.tx_index == b.tx_index && leb a.index b.index)))

abbrev pub expect_hash : Text → Reply → Progress → Progress × Option EventsFailure
expect_hash hash unavailable s = (s, some rpc_failed)
expect_hash hash failed s = (s, some rpc_failed)
expect_hash hash (block b) s = if text_eq b.hash hash then (s, none) else (s, some history_changed)

unfoldable pub validate_boundary : Endpoint → Progress → Progress × Option EventsFailure
unfolding checked
validate_boundary w s =
    let next = s.cursor.next_block in
    if not (is_empty s.cursor.current_block)
    then expect_hash s.cursor.current_block (checked next (w.reply s.moment next)) (next_moment s)
    else if next == 0 || is_empty s.cursor.canonical_parent
    then (s, none)
    else expect_hash s.cursor.canonical_parent (checked (next - 1) (w.reply s.moment (next - 1)))
        (next_moment s)

-- What the scan of the journal comes to: it takes a log off, finds nothing to take off, or fails.
pub data Scan : Type 0 where
  clean took : Scan
  scan_fails : EventsFailure → Scan

abbrev pub as_scan : Progress × Option EventsFailure → Progress × Scan
as_scan (s, none) = (s, took)
as_scan (s, some e) = (s, scan_fails e)

-- A journalled log that the range lacks: its block has been replaced, or the answer is not complete.
abbrev pub take_off : Endpoint → Log → List Log → Reply → Progress → Progress × Scan
take_off w l others unavailable s = (s, scan_fails rpc_failed)
take_off w l others failed s = (s, scan_fails rpc_failed)
take_off w l others (block b) s =
    if text_eq b.hash l.hash
    then (s, scan_fails log_absent)
    else as_scan (deliver_log w (record l { removed = true }) none (some others) s)

-- `reconcileRangeOrphan`, with the part of the journal that it has passed.
unfoldable pub scan_orphans :
    Endpoint → ℕ → ℕ → List Log → List Log → List Log → Progress → Progress × Scan
unfolding checked deliver_log
scan_orphans w from to canonical passed [] s = (s, clean)
scan_orphans w from to canonical passed (l ∷ ls) s =
    let rest = scan_orphans w from to canonical (passed ++ l ∷ []) ls s in
    if ltb l.number from || (ltb to l.number || any (same_id l) canonical)
    then rest
    else take_off w l (passed ++ ls) (checked l.number (w.reply s.moment l.number)) (next_moment s)

abbrev pub cursor_behind : ℕ → Text → EventsCursor
cursor_behind to hash = record {
  next_block = following to;
  canonical_parent = hash;
  current_block = [];
  next_log = 0;
}

-- The end of a range: the cursor moves behind it.
abbrev pub close_range : Endpoint → ℕ → ℕ → Reply → Progress → Progress × Ending
close_range w to target unavailable s = (s, fails rpc_failed)
close_range w to target failed s = (s, fails rpc_failed)
close_range w to target (block b) s =
    and_then ending (save_progress w (some (cursor_behind to b.hash)) none [] s)
      (λ t. (t, if to == target then caught_up else goes_on))

abbrev pub after_scan : Endpoint → ℕ → ℕ → List Log → Progress × Scan → Progress × Ending
after_scan w to target logs (s, took) = (s, goes_on)
after_scan w to target logs (s, scan_fails e) = (s, fails e)
after_scan w to target logs (s, clean) =
    and_then ending (replay_logs w (sort_by log_leb logs) s)
      (λ t. close_range w to target (checked to (w.reply t.moment to)) (next_moment t))

abbrev pub after_logs : Endpoint → ℕ → ℕ → ℕ → Option (List Log) → Progress → Progress × Ending
after_logs w from to target none s = (s, fails rpc_failed)
after_logs w from to target (some logs) s =
    after_scan w to target logs (scan_orphans w from to logs [] s.live_logs s)

-- From the head on.
abbrev pub reconcile_range : Endpoint → RangeSettings → ℕ → Progress → Progress × Ending
reconcile_range w c target s =
    let next = s.cursor.next_block in
    let to = last_block c next target in
    and_then ending (validate_boundary w s)
      (λ t. after_logs w next to target (w.logs t.moment next to) (next_moment t))

abbrev pub after_head : Endpoint → RangeSettings → Option ℕ → Progress → Progress × Ending
after_head w c none s = (s, fails rpc_failed)
after_head w c (some head) s =
    if ltb head c.confirmations
    then (s, caught_up)
    else if ltb (head - c.confirmations) s.cursor.next_block
    then (s, caught_up)
    else reconcile_range w c (head - c.confirmations) s

unfoldable pub reconcile_one : Endpoint → RangeSettings → Progress → Progress × Ending
unfolding last_block validate_boundary scan_orphans replay_logs save_progress sort_by following
    checked
reconcile_one w c s = after_head w c (w.head s.moment) (next_moment s)
