-- ===== src/Evm/Blocks/Advance.antt =====
-- blocks.go: `advance`, `loadProgress` and the loop of `run`; rpc.go: `blocksByNumber`.
use monitord.Base.{
  ℕ, zero, suc, ◌+◌, ◌-◌, ◌^◌, ◌%◌, Text, text_eq, Bool, true, false, not, ◌&&◌, ◌||◌, Option, none,
  some, List, [], ◌∷◌, ◌==◌, ltb, length, if◌then◌else◌, Result, ok, err,
}
use monitord.Evm.Blocks.{
  BlockReference, BlockProgress, following, trim, validate_progress, Reply, unavailable, failed,
  block, Delivery, Handling, commits, missing_receipt, handle_fails, commit_fails, World, Run,
  Failure, rpc_failed, handler_failed, commit_failed, empty_range, broken_range, full_journal,
  invalid_progress, Status, continues, returns, stuck, fails, tick, deliver, checked,
  rollback_orphans,
}

pub record Settings : Type 0 where
  pub chain_id : Text
  pub confirmations : ℕ
  pub max_recent : ℕ
  pub replay_batch : ℕ
  pub backfill_from : Option ℕ

-- The settings that `validate` lets through, with the defaults filled in.
unfoldable pub valid_settings : Settings → Bool
valid_settings c =
    not (ltb c.max_recent 2 || ltb (c.max_recent - 2) c.confirmations)
    && not (ltb 10000 c.replay_batch)

abbrev pub batch_size : Settings → ℕ
batch_size c = if c.replay_batch == 0 then 32 else c.replay_batch

-- The replies of the range from `from`, one moment apart.
unfoldable pub fetch : World → ℕ → ℕ → ℕ → List Reply
unfolding checked
fetch w zero from moment = []
fetch w (suc n) from moment = checked from (w.reply moment from) ∷ fetch w n (from + 1) (moment + 1)

pub data Fetched : Type 0 where
  blocks : List BlockReference → Fetched
  broken : Bool → Bool → Fetched

-- All blocks, or whether some are unavailable and whether some requests failed.
abbrev pub gathered : Reply → Fetched → Fetched
gathered (block b) (blocks bs) = blocks (b ∷ bs)
gathered (block b) (broken missing failing) = broken missing failing
gathered unavailable (blocks bs) = broken true false
gathered unavailable (broken missing failing) = broken true failing
gathered failed (blocks bs) = broken false true
gathered failed (broken missing failing) = broken missing true

unfoldable pub gather : List Reply → Fetched
gather [] = blocks []
gather (r ∷ rs) = gathered r (gather rs)

-- Each block of the range extends the one before it.
unfoldable pub is_chain : List BlockReference → Bool
is_chain [] = true
is_chain (b ∷ []) = true
is_chain (b ∷ c ∷ rest) = text_eq c.parent_hash b.hash && is_chain (c ∷ rest)

-- The progress after a block, with the journal trimmed against the target.
unfoldable pub extended : ℕ → Settings → BlockProgress → BlockReference → BlockProgress
unfolding following trim
extended target c p b = record p {
  next_block = following b.number;
  canonical_parent = b.hash;
  recent = trim target c.confirmations (b ∷ p.recent);
}

abbrev pub application : BlockReference → Delivery
application b = record { removed = false; reference = b }

abbrev pub after_application : Run × Handling → (Run → Run × Status) → Run × Status
after_application (s, commits) rest = rest s
after_application (s, missing_receipt) rest = (s, returns)
after_application (s, handle_fails) rest = (s, fails handler_failed)
after_application (s, commit_fails durable) rest = (s, fails commit_failed)

-- A block whose journal would be too long is handled, and not committed.
abbrev pub uncommitted : Handling → Status
uncommitted missing_receipt = returns
uncommitted handle_fails = fails handler_failed
uncommitted _ = fails full_journal

-- The inner loop of `advance`; `continues` at its end.
unfoldable pub apply_blocks : World → Settings → ℕ → List BlockReference → Run → Run × Status
unfolding extended deliver
apply_blocks w c target [] s = (s, continues)
apply_blocks w c target (b ∷ bs) s =
    let rest = apply_blocks w c target bs in
    let next = extended target c s.progress b in
    if ltb c.max_recent (length next.recent)
    then (tick 1 s, uncommitted (w.handle s.moment (application b)))
    else after_application (deliver w (application b) next s) rest

abbrev pub last_hash : Text → List BlockReference → Text
last_hash hash [] = hash
last_hash hash (b ∷ bs) = last_hash b.hash bs

-- The announced head was replaced before the range was read.
unfoldable pub is_replaced : Option BlockReference → ℕ → List BlockReference → Bool
is_replaced none to bs = false
is_replaced (some head) to bs = to == head.number && not (text_eq (last_hash [] bs) head.hash)

unfoldable pub check_range :
    World → Settings → ℕ → Option BlockReference → ℕ → List BlockReference → Run → Run × Status
unfolding is_replaced apply_blocks
check_range w c target head to [] s = (s, fails empty_range)
check_range w c target head to (first ∷ bs) s =
    if ltb 0 s.progress.next_block && not (text_eq first.parent_hash s.progress.canonical_parent)
    then (s, fails broken_range)
    else if is_replaced head to (first ∷ bs)
    then (s, returns)
    else apply_blocks w c target (first ∷ bs) s

abbrev pub range_end : Settings → ℕ → ℕ → ℕ
range_end c next target =
    if ltb (batch_size c) ((target - next + 1) % 2 ^ 64) then next + batch_size c - 1 else target

-- `blocksByNumber` and the rest of one round, from the moment after the requests.
unfoldable pub use_range :
    World → Settings → ℕ → Option BlockReference → ℕ → Fetched → Run → Run × Status
unfolding check_range is_chain
use_range w c target head to (broken missing failing) s =
    if missing && (not failing || w.race s.moment) then (s, returns) else (s, fails rpc_failed)
use_range w c target head to (blocks bs) s =
    if is_chain bs then check_range w c target head to bs s else (s, fails rpc_failed)

unfoldable pub advance_range : World → Settings → ℕ → Option BlockReference → Run → Run × Status
unfolding use_range fetch gather
advance_range w c target head s =
    let next = s.progress.next_block in
    let to = range_end c next target in
    let count = to - next + 1 in
    use_range w c target head to (gather (fetch w count next s.moment)) (tick count s)

abbrev pub resume : (Run → Run × Status) → Run × Status → Run × Status
resume rest (s, continues) = rest s
resume rest (s, returns) = (s, returns)
resume rest (s, stuck) = (s, stuck)
resume rest (s, fails e) = (s, fails e)

-- The outer loop of `advance`.
unfoldable pub replay : World → Settings → ℕ → Option BlockReference → ℕ → Run → Run × Status
unfolding advance_range
replay w c target head zero s = (s, stuck)
replay w c target head (suc fuel) s =
    let rest = resume (replay w c target head fuel) (advance_range w c target head s) in
    if ltb target s.progress.next_block then (s, returns) else rest

unfoldable pub is_extension : Option BlockReference → BlockProgress → Bool
is_extension none p = false
is_extension (some head) p =
    head.number == p.next_block && text_eq head.parent_hash p.canonical_parent

-- Enough rounds: each one that goes on moves the cursor.
abbrev pub rounds : ℕ → ℕ
rounds target = target + 2

unfoldable pub advance : World → Settings → ℕ → Option BlockReference → Run → Run × Status
unfolding is_extension rollback_orphans replay
advance w c target head s =
    let rest = λ (t : Run). replay w c target head (rounds target) t in
    if is_extension head s.progress then rest s else resume rest (rollback_orphans w s)

-- What wakes the source: a head that the subscription announces, or the head that it polls.
pub data Wakeup : Type 0 where
  announced : BlockReference → Wakeup
  polled : ℕ → Wakeup

unfoldable pub wake : World → Settings → Wakeup → Run → Run × Status
unfolding advance
wake w c (announced head) s = advance w c head.number (some head) s
wake w c (polled head) s = advance w c head none s

-- `advance` returned nil, and the source waits again.
abbrev pub next_wakeup : (Run → Run × Status) → Run × Status → Run × Status
next_wakeup rest (s, continues) = rest s
next_wakeup rest (s, returns) = rest s
next_wakeup rest (s, stuck) = (s, stuck)
next_wakeup rest (s, fails e) = (s, fails e)

-- The loop of `run`, on the head that `loadProgress` reads and the later wakeups.
unfoldable pub listen : World → Settings → List Wakeup → Run → Run × Status
unfolding wake
listen w c [] s = (s, returns)
listen w c (x ∷ xs) s = next_wakeup (listen w c xs) (wake w c x s)

-- `loadProgress` where a progress is saved.
unfoldable pub load_progress : Settings → Run → Result Failure Run
unfolding validate_progress
load_progress c s =
    if validate_progress c.chain_id c.max_recent s.saved
    then ok (record s { progress = s.saved })
    else err invalid_progress

-- `loadProgress` where none is: the cursor at the head or at `BackfillFrom`, below which the parent
-- is read. The progress is committed before anything is delivered.
abbrev pub start_block : Option ℕ → ℕ → Result Failure ℕ
start_block none head = ok head
start_block (some start) head = if ltb head start then err invalid_progress else ok start

abbrev pub started : Settings → ℕ → Reply → Result Failure BlockProgress
started c start (block parent) = ok (record {
  chain_id = c.chain_id;
  next_block = start;
  canonical_parent = parent.hash;
  recent = [];
})
started c start unavailable = err rpc_failed
started c start failed = err rpc_failed

unfoldable pub start_at : World → Settings → ℕ → Result Failure ℕ → Result Failure BlockProgress
unfolding checked
start_at w c moment (err e) = err e
start_at w c moment (ok start) =
    if start == 0
    then ok (record { chain_id = c.chain_id; next_block = 0; canonical_parent = []; recent = [] })
    else started c start (checked (start - 1) (w.reply moment (start - 1)))

unfoldable pub start_progress : World → Settings → ℕ → ℕ → Result Failure BlockProgress
unfolding start_at
start_progress w c head moment = start_at w c moment (start_block c.backfill_from head)

-- One life of the monitor after the other, each from what is saved.
unfoldable pub live : World → Settings → List (List Wakeup) → Run → Run
unfolding listen load_progress
live w c [] s = s
live w c (wakeups ∷ lives) s = elim (load_progress c s) [
  | err e ↦ live w c lives s
  | ok t ↦ live w c lives (listen w c wakeups t).0
]
