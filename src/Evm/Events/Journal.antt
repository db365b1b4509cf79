-- ===== src/Evm/Events/Journal.antt =====
-- catalog/quicknode/evm/events.go: the size of the live journal, delivery by delivery.
use monitord.Base.{
  ℕ, ◌+◌, ◌≤◌, ◌<◌, inl, inr, text_eq, true, false, ◌||◌, ◌==◌, ltb, Option, none, some, List, [],
  ◌∷◌, ◌++◌, any, length, length-append, arith, Bool-cases, Option-cases,
}
use monitord.Base.Table.{find}
use monitord.Evm.Blocks.{Reply, unavailable, failed, block}
use monitord.Evm.Events.{
  Log, same_id, EventsCursor, Endpoint, Progress, EventsFailure, Save, kept, lost, max_live_logs,
  without, after_save, save_progress, deliver_log, handle_live, replay_logs, and_then, failing,
  next_moment, reconciled, confirm, cursor_at,
}
use monitord.Evm.Events.Reconcile.{as_scan, take_off, scan_orphans}

abbrev pub Fits : Progress → Type 0
Fits s = (length s.live_logs ≤ max_live_logs) × (length s.saved_live ≤ max_live_logs)

abbrev FitsNew : Option (List Log) → Type 0
FitsNew none = Unit
FitsNew (some live_logs) = length live_logs ≤ max_live_logs

pub after_save-Fits :
    (c : Option EventsCursor) (live_logs : Option (List Log)) (sent : List Log) (s : Progress)
    (o : Save)
    → Fits s
    → FitsNew live_logs
    → Fits (after_save c live_logs sent s o).0
after_save-Fits c none sent s kept f n = f
after_save-Fits c (some live_logs) sent s kept f n = (n, n)
after_save-Fits c none sent s (lost true) f n = f
after_save-Fits c (some live_logs) sent s (lost true) f n = (f.0, n)
after_save-Fits c live_logs sent s (lost false) f n = f

pub deliver_log-Fits :
    (w : Endpoint) (l : Log) (c : Option EventsCursor) (live_logs : Option (List Log))
    (s : Progress)
    → Fits s
    → FitsNew live_logs
    → Fits (deliver_log w l c live_logs s).0
unfolding deliver_log save_progress
deliver_log-Fits w l c live_logs s f n = elim (Bool-cases (w.handles s.moment l)) [
  | inl good ↦ rw good (after_save-Fits c live_logs (l ∷ []) (next_moment (next_moment s)) _ f n)
  | inr bad ↦ rw bad f
]

length-without-le : (l : Log) (ls : List Log) → length (without l ls) ≤ length ls
unfolding without
length-without-le l [] = omega arith
length-without-le l (k ∷ ks) = ground (arith, length-without-le l ks)

pub handle_live-Fits : (w : Endpoint) (l : Log) (s : Progress) → Fits s → Fits (handle_live w l s).0
unfolding handle_live
handle_live-Fits w l s f = elim (Bool-cases l.removed) [
  | inl gone ↦ elim (Option-cases (find (same_id l) s.live_logs)) [
    | inl unknown ↦ rw gone (rw unknown f)
    | inr (old, there) ↦ rw gone (
        rw there (
          deliver_log-Fits w (record old { removed = true }) none (some (without l s.live_logs)) s f
            (omega (arith, length-without-le l s.live_logs, f.0))))
  ]
  | inr new ↦ elim (Bool-cases (any (same_id l) s.live_logs)) [
    | inl known ↦ rw new (rw known f)
    | inr unknown ↦ elim (Bool-cases (length s.live_logs == max_live_logs)) [
      | inl full ↦ rw new (rw unknown (rw full f))
      | inr room ↦
          let fresh : Log = record l { removed = false; confirmed = false } in
          let less : length s.live_logs < max_live_logs = ground (arith, f.0) in
          rw new (
            rw unknown (
              rw room (
                deliver_log-Fits w fresh none (some (s.live_logs ++ fresh ∷ [])) s f
                  (omega (arith, less, length-append s.live_logs (fresh ∷ []))))))
    ]
  ]
]

pub and_then-Fits {ℓ} :
    {A : Type ℓ} (failure : EventsFailure → Progress → Progress × A)
    (r : Progress × Option EventsFailure) (rest : Progress → Progress × A)
    → Fits r.0
    → ((e : EventsFailure) (t : Progress) → Fits t → Fits (failure e t).0)
    → ((t : Progress) → Fits t → Fits (rest t).0)
    → Fits (and_then failure r rest).0
and_then-Fits failure (s, none) rest f hf hr = hr s f
and_then-Fits failure (s, some e) rest f hf hr = hf e s f

pub replay_logs-Fits :
    (w : Endpoint) (ls : List Log) (s : Progress) → Fits s → Fits (replay_logs w ls s).0
unfolding replay_logs
replay_logs-Fits w [] s f = f
replay_logs-Fits w (l ∷ ls) s f = elim (Bool-cases (reconciled s.cursor l)) [
  | inl hit ↦ rw hit (replay_logs-Fits w ls s f)
  | inr miss ↦ rw miss (
      and_then-Fits failing
        (deliver_log w (confirm l) (some (cursor_at s.cursor l)) (some (without l s.live_logs)) s)
        (replay_logs w ls)
        (deliver_log-Fits w (confirm l) (some (cursor_at s.cursor l)) (some (without l s.live_logs))
          s f (omega (arith, length-without-le l s.live_logs, f.0)))
        (λ e t h. h) (λ t h. replay_logs-Fits w ls t h))
]

as_scan-Fits : (r : Progress × Option EventsFailure) → Fits r.0 → Fits (as_scan r).0
as_scan-Fits (s, none) f = f
as_scan-Fits (s, some e) f = f

take_off-Fits :
    (w : Endpoint) (l : Log) (others : List Log) (x : Reply) (s : Progress)
    → Fits s
    → length others ≤ max_live_logs
    → Fits (take_off w l others x s).0
take_off-Fits w l others unavailable s f n = f
take_off-Fits w l others failed s f n = f
take_off-Fits w l others (block b) s f n = elim (Bool-cases (text_eq b.hash l.hash)) [
  | inl same ↦ rw same f
  | inr other ↦
      rw other
        (as_scan-Fits _ (deliver_log-Fits w (record l { removed = true }) none (some others) s f n))
]

pub scan_orphans-Fits :
    (w : Endpoint) (from to : ℕ) (canonical passed ls : List Log) (s : Progress)
    → Fits s
    → length passed + length ls ≤ max_live_logs
    → Fits (scan_orphans w from to canonical passed ls s).0
unfolding scan_orphans
scan_orphans-Fits w from to canonical passed [] s f n = f
scan_orphans-Fits w from to canonical passed (l ∷ ls) s f n =
    elim (Bool-cases (ltb l.number from || (ltb to l.number || any (same_id l) canonical))) [
      | inl skip ↦ rw skip (
          scan_orphans-Fits w from to canonical (passed ++ l ∷ []) ls s f
            (omega (arith, n, length-append passed (l ∷ []))))
      | inr orphan ↦ rw orphan (
          take_off-Fits w l (passed ++ ls) _ (next_moment s) f
            (omega (arith, n, length-append passed ls)))
    ]
