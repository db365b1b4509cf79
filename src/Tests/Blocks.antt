-- ===== src/Tests/Blocks.antt =====
-- The block source on an endpoint that replaces block 11, across two lives of the monitor.
use monitord.Base.{
  all_hex, text_eq, ℕ, zero, suc, ◌==◌, ltb, ◌≡◌, ◌≢◌, refl, true, false, Text, none, List, [], ◌∷◌,
  if◌then◌else◌, arith, length, ◌≤◌,
}
use monitord.Evm.Blocks.{
  contiguous, follows_journal, following, valid_hash, roll_back, unless_canonical, checked, deliver,
  trim, drop_finalized, BlockReference, BlockProgress, World, Run, Delivery, commits, block,
  unavailable, validate_progress, stuck, rollback_orphans, Reply,
}
use monitord.Evm.Blocks.Advance.{
  load_progress, listen, wake, is_extension, replay, advance_range, use_range, fetch, gather,
  is_chain, check_range, is_replaced, apply_blocks, Settings, Wakeup, announced, polled, advance,
  live, valid_settings, extended,
}
use monitord.Evm.Blocks.Chain.{play, is_linked}
use monitord.Evm.Blocks.Replay.{Tracks}
use monitord.Evm.Blocks.Lives.{live-Tracks}
use monitord.Evm.Blocks.Termination.{advance_ends}
use monitord.Evm.Blocks.Room.{extended_fits}
use monitord.Evm.Blocks.Canonical.{rollback_orphans-IsCanonical, IsCanonical}

abbrev hash_digits : ℕ → ℕ → Text
hash_digits zero d = []
hash_digits (suc n) d = d ∷ hash_digits n d

-- 0x and 64 times the digit.
abbrev hash_of : ℕ → Text
hash_of d = 48 ∷ 120 ∷ hash_digits 64 d

abbrev reference : ℕ → ℕ → ℕ → BlockReference
reference n hash parent = record { number = n; hash = hash_of hash; parent_hash = hash_of parent }

abbrev old_10 : BlockReference
old_10 = reference 10 49 48

abbrev old_11 : BlockReference
old_11 = reference 11 50 49

abbrev new_11 : BlockReference
new_11 = reference 11 51 49

abbrev new_12 : BlockReference
new_12 = reference 12 52 51

-- Block 11 is replaced at moment 2.
abbrev answer : ℕ → ℕ → Reply
answer moment n =
    if n == 10
    then block old_10
    else if n == 11
    then (if ltb moment 2 then block old_11 else block new_11)
    else if n == 12
    then block new_12
    else unavailable

abbrev endpoint : World
endpoint = record { reply = answer; handle = λ m d. commits; race = λ m. true }

abbrev settings : Settings
settings = record {
  chain_id = 48 ∷ 120 ∷ 49 ∷ [];
  confirmations = 2;
  max_recent = 8;
  replay_batch = 0;
  backfill_from = none;
}

abbrev progress : BlockProgress
progress = record {
  chain_id = 48 ∷ 120 ∷ 49 ∷ [];
  next_block = 11;
  canonical_parent = hash_of 49;
  recent = old_10 ∷ [];
}

abbrev start : Run
start = record { progress = progress; saved = progress; delivered = []; moment = 0 }

abbrev lives : List (List Wakeup)
lives = (announced old_11 ∷ []) ∷ (polled 12 ∷ []) ∷ []

abbrev deliveries : Run → List Delivery
deliveries s = s.delivered

-- Block 11 is applied in the first life, and removed for its replacement in the second one.
reorganized :
    deliveries (live endpoint settings lives start)
    ≡ record { removed = false; reference = new_12 }
      ∷ record { removed = false; reference = new_11 }
      ∷ record { removed = true; reference = old_11 }
      ∷ record { removed = false; reference = old_11 }
      ∷ []
unfolding live load_progress validate_progress contiguous follows_journal following valid_hash
    all_hex text_eq listen wake advance is_extension rollback_orphans roll_back unless_canonical
    checked deliver replay advance_range use_range fetch gather is_chain check_range is_replaced
    apply_blocks extended trim drop_finalized
reorganized = refl

start-Tracks : Tracks settings (old_10 ∷ []) start
unfolding play contiguous follows_journal is_linked following valid_hash all_hex text_eq
start-Tracks = record {
  chain = old_10 ∷ [];
  played = refl;
  described = record {
    chain_id = refl;
    bounded = omega arith;
    valid = refl;
    cursor = refl;
    older = [];
    journal = refl;
    linked = refl;
    small = (omega arith, tt);
    top = (refl, refl);
  };
}

live-Tracks_example :
    Tracks settings (old_10 ∷ []) (live endpoint settings lives start)
    × (validate_progress settings.chain_id settings.max_recent
          (live endpoint settings lives start).saved
        ≡ true)
live-Tracks_example =
    live-Tracks endpoint settings (old_10 ∷ []) lives start
      ((omega arith, tt), ((omega arith, tt), tt)) start-Tracks

advance_ends_example : (advance endpoint settings 12 none start).1 ≢ stuck
advance_ends_example = advance_ends endpoint settings 12 none start (omega arith)

extended_fits_example :
    (length (extended 12 settings progress old_11).recent ≤ 2)
    × (ltb 8 (length (extended 12 settings progress old_11).recent) ≡ false)
unfolding valid_settings validate_progress contiguous follows_journal following valid_hash all_hex
    text_eq
extended_fits_example =
    extended_fits 12 settings progress old_11 refl refl (omega arith, tt) refl (omega arith)

-- At moment 2 the block below the cursor is another one than at moment 0.
abbrev reorganizing : Run
reorganizing = record {
  progress = record progress {
    next_block = 12;
    canonical_parent = hash_of 50;
    recent = old_11 ∷ old_10 ∷ [];
  };
  saved = progress;
  delivered = [];
  moment = 2;
}

abbrev rolled_back : Run
rolled_back = record {
  progress = progress;
  saved = progress;
  moment = 5;
  delivered = record { removed = true; reference = old_11 } ∷ [];
}

rollback_orphans-IsCanonical_example : IsCanonical endpoint rolled_back
unfolding rollback_orphans roll_back unless_canonical checked deliver following valid_hash all_hex
    text_eq
rollback_orphans-IsCanonical_example =
    rollback_orphans-IsCanonical endpoint reorganizing rolled_back refl
