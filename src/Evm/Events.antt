-- ===== src/Evm/Events.antt =====
-- catalog/quicknode/evm/events.go: the source that delivers matching logs at once and again, confirmed,
-- from history. The chain ID and the filter of a source stay as they are; what a log carries beside
-- its place is `payload`. Logs that sort.Slice leaves in any order keep the order of the answer.
pub mod Reconcile
pub mod Pending
pub mod Resumed
pub mod Journal
pub mod Follow
pub mod Bounds
use monitord.Base.{
  ℕ, ◌+◌, ◌-◌, ◌^◌, ◌%◌, ◌==◌, ltb, leb, min, Text, text_eq, Bool, true, false, not, ◌&&◌, ◌||◌,
  Option, none, some, List, [], ◌∷◌, ◌++◌, any, length, if◌then◌else◌, sort_by, coalesce, is_some,
}
use monitord.Base.Table.{find}
use monitord.Evm.Blocks.{Reply, unavailable, failed, block, checked, following, is_empty}

pub record Log : Type 0 where
  pub number : ℕ
  pub hash : Text
  pub tx_hash : Text
  pub tx_index : ℕ
  pub index : ℕ
  pub payload : Text
  pub removed : Bool
  pub confirmed : Bool

-- `Log.ID`, on one chain.
abbrev pub same_id : Log → Log → Bool
same_id a b = text_eq a.hash b.hash && (text_eq a.tx_hash b.tx_hash && a.index == b.index)

pub record EventsCursor : Type 0 where
  pub next_block : ℕ
  pub canonical_parent : Text
  pub current_block : Text
  pub next_log : ℕ

-- What becomes of a commit of the session: it is acknowledged, or fails and is durable or not.
pub data Save : Type 0 where
  kept : Save
  lost : Bool → Save

-- The endpoint, `Handle` and the session at the moment of each call; none is an error.
pub record Endpoint : Type 0 where
  pub head : ℕ → Option ℕ
  pub reply : ℕ → ℕ → Reply
  pub logs : ℕ → ℕ → ℕ → Option (List Log)
  pub handles : ℕ → Log → Bool
  pub save : ℕ → Save

-- The cursor and the live journal in memory and as they are saved, the saved deliveries in their
-- order, and the moment of the next call.
pub record Progress : Type 0 where
  pub cursor : EventsCursor
  pub saved_cursor : EventsCursor
  pub live_logs : List Log
  pub saved_live : List Log
  pub delivered : List Log
  pub moment : ℕ

pub data EventsFailure : Type 0 where
  rpc_failed handler_failed commit_failed journal_full history_changed log_absent : EventsFailure

-- How a call ends: the two values of `reconcileOne`, or its error.
pub data Ending : Type 0 where
  caught_up goes_on : Ending
  fails : EventsFailure → Ending

abbrev pub next_moment : Progress → Progress
next_moment s = record s { moment = s.moment + 1 }

abbrev pub or_old {ℓ} : {A : Type ℓ} → Option A → A → A
or_old none old = old
or_old (some new) old = new

-- The saved state with a cursor or a journal that is not nil, and what was delivered with it.
abbrev pub saved_with : Option EventsCursor → Option (List Log) → List Log → Progress → Progress
saved_with c live_logs sent s = record s {
  saved_cursor = or_old c s.saved_cursor;
  saved_live = or_old live_logs s.saved_live;
  delivered = s.delivered ++ sent;
}

abbrev pub after_save :
    Option EventsCursor
    → Option (List Log)
    → List Log
    → Progress
    → Save
    → Progress × Option EventsFailure
after_save c live_logs sent s kept = (
  record (saved_with c live_logs sent s) {
    cursor = or_old c s.cursor;
    live_logs = or_old live_logs s.live_logs;
  },
  none,
)
after_save c live_logs sent s (lost true) = (saved_with c live_logs sent s, some commit_failed)
after_save c live_logs sent s (lost false) = (s, some commit_failed)

-- A commit, after which the caller takes over the cursor and the journal.
unfoldable pub save_progress :
    Endpoint
    → Option EventsCursor
    → Option (List Log)
    → List Log
    → Progress
    → Progress × Option EventsFailure
save_progress w c live_logs sent s = after_save c live_logs sent (next_moment s) (w.save s.moment)

-- One call of `Handle`, and the commit of its update.
unfoldable pub deliver_log :
    Endpoint
    → Log
    → Option EventsCursor
    → Option (List Log)
    → Progress
    → Progress × Option EventsFailure
unfolding save_progress
deliver_log w l c live_logs s =
    if w.handles s.moment l
    then save_progress w c live_logs (l ∷ []) (next_moment s)
    else (next_moment s, some handler_failed)

-- The journal without the first log of that ID.
unfoldable pub without : Log → List Log → List Log
without l [] = []
without l (k ∷ ks) = if same_id l k then ks else k ∷ without l ks

abbrev pub max_live_logs : ℕ
max_live_logs = 256

unfoldable pub handle_live : Endpoint → Log → Progress → Progress × Option EventsFailure
unfolding deliver_log without find
handle_live w l s =
    if l.removed
    then elim (find (same_id l) s.live_logs) [
      | none ↦ (s, none)
      | some old ↦
          deliver_log w (record old { removed = true }) none (some (without l s.live_logs)) s
    ]
    else if any (same_id l) s.live_logs
    then (s, none)
    else if length s.live_logs == max_live_logs
    then (s, some journal_full)
    else let fresh = record l { confirmed = false } in
      deliver_log w fresh none (some (s.live_logs ++ fresh ∷ [])) s

unfoldable pub reconciled : EventsCursor → Log → Bool
reconciled c l =
    ltb l.number c.next_block
    || (l.number == c.next_block && (text_eq c.current_block l.hash && ltb l.index c.next_log))

-- The cursor behind a log.
abbrev pub cursor_at : EventsCursor → Log → EventsCursor
cursor_at c l = record c {
  next_block = l.number;
  current_block = l.hash;
  next_log = following l.index;
}

abbrev pub confirm : Log → Log
confirm l = record l { confirmed = true }

abbrev pub and_then {ℓ} :
    {A : Type ℓ}
    → (EventsFailure → Progress → Progress × A)
    → Progress × Option EventsFailure
    → (Progress → Progress × A)
    → Progress × A
and_then failure (s, none) rest = rest s
and_then failure (s, some e) rest = failure e s

abbrev pub failing : EventsFailure → Progress → Progress × Option EventsFailure
failing e s = (s, some e)

abbrev pub ending : EventsFailure → Progress → Progress × Ending
ending e s = (s, fails e)

-- The loop over the logs of a range.
unfoldable pub replay_logs : Endpoint → List Log → Progress → Progress × Option EventsFailure
unfolding reconciled deliver_log without following
replay_logs w [] s = (s, none)
replay_logs w (l ∷ ls) s =
    let rest = replay_logs w ls in
    if reconciled s.cursor l
    then rest s
    else and_then failing
        (deliver_log w (confirm l) (some (cursor_at s.cursor l)) (some (without l s.live_logs)) s)
        rest
