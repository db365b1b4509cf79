-- ===== src/Evm/Events/Follow.antt =====
-- catalog/quicknode/evm/events.go, `run`: live logs and reconciliations in any order.
use monitord.Base.{
  ℕ, ◌-◌, inl, inr, Text, text_eq, ◌||◌, ◌==◌, ltb, Option, none, some, List, [], ◌∷◌, arith,
  if◌then◌else◌, Bool-cases, sort_by,
}
use monitord.Evm.Blocks.{Reply, unavailable, failed, block, checked, is_empty}
use monitord.Evm.Events.{
  Log, Endpoint, Progress, save_progress, handle_live, replay_logs, ending, next_moment, caught_up,
  goes_on,
}
use monitord.Evm.Events.Resumed.{restart}
use monitord.Evm.Events.Reconcile.{
  RangeSettings, last_block, validate_boundary, expect_hash, scan_orphans, Scan, took, clean,
  scan_fails, close_range, after_scan, after_logs, after_head, reconcile_range, reconcile_one,
  log_leb, cursor_behind,
}
use monitord.Evm.Events.Journal.{
  Fits, after_save-Fits, handle_live-Fits, and_then-Fits, replay_logs-Fits, scan_orphans-Fits,
}

expect_hash-Fits : (hash : Text) (x : Reply) (s : Progress) → Fits s → Fits (expect_hash hash x s).0
expect_hash-Fits hash unavailable s f = f
expect_hash-Fits hash failed s f = f
expect_hash-Fits hash (block b) s f = elim (Bool-cases (text_eq b.hash hash)) [
  | inl same ↦ rw same f
  | inr other ↦ rw other f
]

validate_boundary-Fits : (w : Endpoint) (s : Progress) → Fits s → Fits (validate_boundary w s).0
unfolding validate_boundary
validate_boundary-Fits w s f = elim (Bool-cases (is_empty s.cursor.current_block)) [
  | inr inside ↦ rw inside (expect_hash-Fits s.cursor.current_block _ (next_moment s) f)
  | inl between ↦
      elim (Bool-cases (s.cursor.next_block == 0 || is_empty s.cursor.canonical_parent)) [
        | inl first ↦ rw between (rw first f)
        | inr later ↦
            rw between (rw later (expect_hash-Fits s.cursor.canonical_parent _ (next_moment s) f))
      ]
]

close_range-Fits :
    (w : Endpoint) (to target : ℕ) (x : Reply) (s : Progress)
    → Fits s
    → Fits (close_range w to target x s).0
unfolding save_progress
close_range-Fits w to target unavailable s f = f
close_range-Fits w to target failed s f = f
close_range-Fits w to target (block b) s f =
    and_then-Fits ending (save_progress w (some (cursor_behind to b.hash)) none [] s)
      (λ t. (t, if to == target then caught_up else goes_on))
      (after_save-Fits (some (cursor_behind to b.hash)) none [] (next_moment s) (w.save s.moment) f
        tt)
      (λ e t h. h) (λ t h. h)

after_scan-Fits :
    (w : Endpoint) (to target : ℕ) (logs : List Log) (r : Progress × Scan)
    → Fits r.0
    → Fits (after_scan w to target logs r).0
after_scan-Fits w to target logs (s, took) f = f
after_scan-Fits w to target logs (s, scan_fails e) f = f
after_scan-Fits w to target logs (s, clean) f =
    and_then-Fits ending (replay_logs w (sort_by log_leb logs) s)
      (λ t. close_range w to target (checked to (w.reply t.moment to)) (next_moment t))
      (replay_logs-Fits w (sort_by log_leb logs) s f) (λ e t h. h)
      (λ t h. close_range-Fits w to target _ (next_moment t) h)

after_logs-Fits :
    (w : Endpoint) (from to target : ℕ) (o : Option (List Log)) (s : Progress)
    → Fits s
    → Fits (after_logs w from to target o s).0
after_logs-Fits w from to target none s f = f
after_logs-Fits w from to target (some logs) s f =
    after_scan-Fits w to target logs (scan_orphans w from to logs [] s.live_logs s)
      (scan_orphans-Fits w from to logs [] s.live_logs s f (omega (arith, f.0)))

reconcile_range-Fits :
    (w : Endpoint) (c : RangeSettings) (target : ℕ) (s : Progress)
    → Fits s
    → Fits (reconcile_range w c target s).0
reconcile_range-Fits w c target s f =
    let next = s.cursor.next_block in
    let to = last_block c next target in
    and_then-Fits ending (validate_boundary w s)
      (λ t. after_logs w next to target (w.logs t.moment next to) (next_moment t))
      (validate_boundary-Fits w s f) (λ e t h. h)
      (λ t h. after_logs-Fits w next to target (w.logs t.moment next to) (next_moment t) h)

after_head-Fits :
    (w : Endpoint) (c : RangeSettings) (o : Option ℕ) (s : Progress)
    → Fits s
    → Fits (after_head w c o s).0
after_head-Fits w c none s f = f
after_head-Fits w c (some head) s f = elim (Bool-cases (ltb head c.confirmations)) [
  | inl early ↦ rw early f
  | inr late ↦ elim (Bool-cases (ltb (head - c.confirmations) s.cursor.next_block)) [
    | inl there ↦ rw late (rw there f)
    | inr behind ↦ rw late (rw behind (reconcile_range-Fits w c (head - c.confirmations) s f))
  ]
]

-- What the source does between two starts, and a start from what is saved.
pub data SourceStep : Type 0 where
  hears : Log → SourceStep
  reconciles starts : SourceStep

unfoldable pub follow : Endpoint → RangeSettings → List SourceStep → Progress → Progress
unfolding handle_live reconcile_one
follow w c [] s = s
follow w c (hears l ∷ steps) s = follow w c steps (handle_live w l s).0
follow w c (reconciles ∷ steps) s = follow w c steps (reconcile_one w c s).0
follow w c (starts ∷ steps) s = follow w c steps (restart s)

-- In any sequence of live logs, reconciliations and starts, and whatever the endpoint, the monitor and
-- the session come to, the live journal and the saved one never exceed their bound, so that the test
-- of `loadLive` on the saved journal never fails.
pub follow-Fits :
    (w : Endpoint) (c : RangeSettings) (steps : List SourceStep) (s : Progress)
    → Fits s
    → Fits (follow w c steps s)
unfolding follow reconcile_one
follow-Fits w c [] s f = f
follow-Fits w c (hears l ∷ steps) s f =
    follow-Fits w c steps (handle_live w l s).0 (handle_live-Fits w l s f)
follow-Fits w c (reconciles ∷ steps) s f =
    follow-Fits w c steps (reconcile_one w c s).0
      (after_head-Fits w c (w.head s.moment) (next_moment s) f)
follow-Fits w c (starts ∷ steps) s f = follow-Fits w c steps (restart s) (f.1, f.1)
