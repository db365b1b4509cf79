-- ===== src/Evm/Blocks.antt =====
-- catalog/quicknode/evm/blocks.go, and `blocksByNumber` and `BlockByNumber` of rpc.go: the source
-- that delivers each block of the canonical chain once. A journal is kept newest first, so that the
-- head of the list is the last element of the slice. A block is its number, hash and parent hash.
pub mod Advance
pub mod Journal
pub mod Chain
pub mod Range
pub mod Replay
pub mod Forward
pub mod Lives
pub mod Ends
pub mod Termination
pub mod Room
pub mod Canonical
use monitord.Base.{
  ℕ, zero, suc, ◌+◌, ◌-◌, ◌^◌, ◌%◌, ◌<◌, Text, text_eq, Bool, true, false, not, ◌&&◌, ◌||◌, List,
  [], ◌∷◌, ◌==◌, ltb, leb, length, if◌then◌else◌, all_hex, Result, ok, err,
}

pub record BlockReference : Type 0 where
  pub number : ℕ
  pub hash : Text
  pub parent_hash : Text

pub record BlockProgress : Type 0 where
  pub chain_id : Text
  pub next_block : ℕ
  pub canonical_parent : Text
  pub recent : List BlockReference

abbrev pub is_empty : Text → Bool
is_empty [] = true
is_empty (x ∷ xs) = false

-- `n + 1` on a uint64.
unfoldable pub following : ℕ → ℕ
following n = (n + 1) % 2 ^ 64

-- `ParseHash` accepts it: 0x and 32 bytes of hexadecimal digits.
unfoldable pub valid_hash : Text → Bool
unfolding all_hex
valid_hash (a ∷ b ∷ digits) = a == 48 && (b == 120 && (length digits == 64 && all_hex digits))
valid_hash _ = false

abbrev pub follows : BlockReference → List BlockReference → Bool
unfolding following text_eq
follows r [] = true
follows r (previous ∷ older) =
    r.number == following previous.number && text_eq r.parent_hash previous.hash

-- The loop of `validateBlockProgress`.
unfoldable pub contiguous : List BlockReference → Bool
unfolding follows valid_hash
contiguous [] = true
contiguous (r ∷ older) =
    valid_hash r.hash && (valid_hash r.parent_hash && (follows r older && contiguous older))

-- The check of the cursor against its journal.
unfoldable pub follows_journal : ℕ → Text → List BlockReference → Bool
follows_journal next parent [] = not (ltb 0 next && is_empty parent)
follows_journal next parent (last ∷ older) =
    next == following last.number && text_eq parent last.hash

unfoldable pub validate_progress : Text → ℕ → BlockProgress → Bool
unfolding contiguous follows_journal
validate_progress chain max_recent p =
    text_eq p.chain_id chain
    && (not (ltb max_recent (length p.recent))
        && (contiguous p.recent && follows_journal p.next_block p.canonical_parent p.recent))

-- The blocks up to `finalized` at the old end of the journal are dropped.
abbrev pub keep_before : ℕ → BlockReference → List BlockReference → List BlockReference
keep_before finalized r [] = if leb r.number finalized then [] else r ∷ []
keep_before finalized r (k ∷ kept) = r ∷ k ∷ kept

unfoldable pub drop_finalized : ℕ → List BlockReference → List BlockReference
drop_finalized finalized [] = []
drop_finalized finalized (r ∷ older) = keep_before finalized r (drop_finalized finalized older)

unfoldable pub trim : ℕ → ℕ → List BlockReference → List BlockReference
unfolding drop_finalized
trim head confirmations recent =
    if ltb head confirmations then recent else drop_finalized (head - confirmations) recent

-- What the endpoint finally answers to one request for a block.
pub data Reply : Type 0 where
  unavailable failed : Reply
  block : BlockReference → Reply

-- A block that is handed to `Handle`.
pub record Delivery : Type 0 where
  pub removed : Bool
  pub reference : BlockReference

-- What becomes of a delivery: its update is committed with the progress, a receipt is missing,
-- `Handle` fails, or the commit fails while it is durable or not.
pub data Handling : Type 0 where
  commits missing_receipt handle_fails : Handling
  commit_fails : Bool → Handling

-- The endpoint and the monitor's own code, at the moment of each call. Where several requests of one
-- range fail, `race` says whether an unavailable block is reported first.
pub record World : Type 0 where
  pub reply : ℕ → ℕ → Reply
  pub handle : ℕ → Delivery → Handling
  pub race : ℕ → Bool

-- The progress in memory, the one that is saved, the deliveries that are saved with it, newest
-- first, and the moment of the next call.
pub record Run : Type 0 where
  pub progress : BlockProgress
  pub saved : BlockProgress
  pub delivered : List Delivery
  pub moment : ℕ

pub data Failure : Type 0 where
  rpc_failed handler_failed commit_failed beyond_journal inconsistent_journal : Failure
  empty_range broken_range full_journal invalid_progress : Failure

-- How a call of the source ends; `stuck` is the end of the fuel.
pub data Status : Type 0 where
  continues returns stuck : Status
  fails : Failure → Status

abbrev pub tick : ℕ → Run → Run
tick n s = record s { moment = s.moment + n }

abbrev pub settled_as : Delivery → BlockProgress → Run → Handling → Run × Handling
settled_as d next s commits = (
  record s { progress = next; saved = next; delivered = d ∷ s.delivered; moment = s.moment + 1 },
  commits,
)
settled_as d next s missing_receipt = (tick 1 s, missing_receipt)
settled_as d next s handle_fails = (tick 1 s, handle_fails)
settled_as d next s (commit_fails true) = (
  record s { saved = next; delivered = d ∷ s.delivered; moment = s.moment + 1 },
  commit_fails true,
)
settled_as d next s (commit_fails false) = (tick 1 s, commit_fails false)

-- One `Handle` and the commit of its update with the new progress.
unfoldable pub deliver : World → Delivery → BlockProgress → Run → Run × Handling
deliver w d next s = settled_as d next s (w.handle s.moment d)

-- A reply that `BlockByNumber` and `blockByNumber` accept for the number.
unfoldable pub checked : ℕ → Reply → Reply
unfolding valid_hash
checked n unavailable = unavailable
checked n failed = failed
checked n (block b) =
    if b.number == n && (valid_hash b.hash && valid_hash b.parent_hash) then block b else failed

abbrev pub removal : BlockReference → Delivery
removal last = record { removed = true; reference = last }

abbrev pub popped : BlockProgress → BlockReference → List BlockReference → BlockProgress
popped p last older = record p {
  recent = older;
  next_block = last.number;
  canonical_parent = last.parent_hash;
}

-- The loop goes on after a removal that is committed.
abbrev pub after_removal : Run × Handling → (Run → Run × Status) → Run × Status
after_removal (s, commits) rest = rest s
after_removal (s, missing_receipt) rest = (s, fails handler_failed)
after_removal (s, handle_fails) rest = (s, fails handler_failed)
after_removal (s, commit_fails durable) rest = (s, fails commit_failed)

abbrev pub when_replaced : Text → Reply → Run → (Run → Run × Status) → Run × Status
when_replaced parent unavailable s rest = (s, fails rpc_failed)
when_replaced parent failed s rest = (s, fails rpc_failed)
when_replaced parent (block b) s rest = if text_eq b.hash parent then (s, continues) else rest s

-- The condition of the loop of `rollbackOrphans`, and its test of the block below the cursor.
unfoldable pub unless_canonical : World → Run → (Run → Run × Status) → Run × Status
unfolding checked
unless_canonical w s rest =
    if s.progress.next_block == 0 || is_empty s.progress.canonical_parent
    then (s, continues)
    else when_replaced s.progress.canonical_parent
        (checked (s.progress.next_block - 1) (w.reply s.moment (s.progress.next_block - 1)))
        (tick 1 s) rest

-- The loop of `rollbackOrphans`, which takes one block off the journal of the progress each round;
-- `continues` where it returns nil.
unfoldable pub roll_back : World → List BlockReference → Run → Run × Status
unfolding unless_canonical deliver following
roll_back w [] s = unless_canonical w s (λ t. (t, fails beyond_journal))
roll_back w (last ∷ older) s =
    let rest = roll_back w older in
    unless_canonical w s λ t.
      if following last.number == t.progress.next_block
        && text_eq last.hash t.progress.canonical_parent
      then after_removal (deliver w (removal last) (popped t.progress last older) t) rest
      else (t, fails inconsistent_journal)

unfoldable pub rollback_orphans : World → Run → Run × Status
unfolding roll_back
rollback_orphans w s = roll_back w s.progress.recent s
