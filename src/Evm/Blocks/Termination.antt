-- ===== src/Evm/Blocks/Termination.antt =====
-- blocks.go, `advance`: the rounds of its loop.
use mathlib.Core.Path.{subst}
use monitord.Base.{
  ℕ, zero, suc, ◌+◌, ◌-◌, ◌^◌, ◌≤◌, ◌<◌, text_eq, ◌≡◌, ◌≢◌, refl, sym, inl, inr, ◌&&◌, ◌||◌, not,
  Option, List, [], ◌∷◌, arith, Bool-cases, ltb, length,
}
use monitord.Evm.Blocks.{
  BlockReference, Handling, commits, missing_receipt, handle_fails, commit_fails, World, Run,
  Status, continues, returns, stuck, fails, tick, deliver, rollback_orphans,
}
use monitord.Evm.Blocks.Advance.{
  Settings, extended, application, after_application, uncommitted, apply_blocks, is_replaced,
  check_range, Fetched, blocks, broken, use_range, is_chain, advance_range, fetch, gather,
  range_end, resume, replay, advance, is_extension, rounds,
}
use monitord.Evm.Blocks.Range.{AreNumbered, fetch-AreNumbered, range_end_bounds}
use monitord.Evm.Blocks.Forward.{applied-cursor}
use monitord.Evm.Blocks.Ends.{Ends, roll_back-Ends}

-- A round that goes on has moved the cursor to `n`; no round runs out of fuel.
abbrev Moves : ℕ → Run × Status → Type 0
Moves n (s, continues) = s.progress.next_block ≡ n
Moves n (s, returns) = Unit
Moves n (s, fails e) = Unit
Moves n (s, stuck) = ⊥

module _ (c : Settings) where
  after_application-Moves :
      (n : ℕ) (r : Run × Handling) (rest : Run → Run × Status)
      → ((t : Run) → r ≡ (t, commits) → Moves n (rest t))
      → Moves n (after_application r rest)
  after_application-Moves n (s, commits) rest k = k s refl
  after_application-Moves n (s, missing_receipt) rest k = tt
  after_application-Moves n (s, handle_fails) rest k = tt
  after_application-Moves n (s, commit_fails durable) rest k = tt

  uncommitted-Moves : (n : ℕ) (s : Run) (h : Handling) → Moves n (s, uncommitted h)
  uncommitted-Moves n s missing_receipt = tt
  uncommitted-Moves n s handle_fails = tt
  uncommitted-Moves n s commits = tt
  uncommitted-Moves n s (commit_fails durable) = tt

  apply_blocks-Moves :
      (w : World) (target : ℕ) (bs : List BlockReference) (s : Run)
      → AreNumbered s.progress.next_block bs
      → s.progress.next_block + length bs < 2 ^ 64
      → Moves (s.progress.next_block + length bs) (apply_blocks w c target bs s)
  unfolding apply_blocks
  apply_blocks-Moves w target [] s a small = omega arith
  apply_blocks-Moves w target (b ∷ bs) s a small =
      let next = extended target c s.progress b in
      elim (Bool-cases (ltb c.max_recent (length next.recent))) [
        | inl full ↦ rw full (uncommitted-Moves _ (tick 1 s) (w.handle s.moment (application b)))
        | inr fits ↦ rw fits (
            after_application-Moves _ (deliver w (application b) next s)
              (apply_blocks w c target bs)
              (λ t made.
                let (moved, _) = applied-cursor c [] w target b s t a.0 (omega arith) made in
                let rest =
                  apply_blocks-Moves w target bs t (subst (λ n. AreNumbered n bs) (sym moved) a.3)
                    (omega arith) in
                subst (λ n. Moves n (apply_blocks w c target bs t)) (omega arith) rest))
      ]

  check_range-Moves :
      (w : World) (target : ℕ) (head : Option BlockReference) (to : ℕ) (bs : List BlockReference)
      (s : Run)
      → AreNumbered s.progress.next_block bs
      → s.progress.next_block + length bs < 2 ^ 64
      → Moves (s.progress.next_block + length bs) (check_range w c target head to bs s)
  unfolding check_range
  check_range-Moves w target head to [] s a small = tt
  check_range-Moves w target head to (first ∷ bs) s a small =
      elim (Bool-cases (
        ltb 0 s.progress.next_block
        && not (text_eq first.parent_hash s.progress.canonical_parent))) [
          | inl bad ↦ rw bad tt
          | inr good ↦ rw good (elim (Bool-cases (is_replaced head to (first ∷ bs))) [
            | inl gone ↦ rw gone tt
            | inr here ↦ rw here (apply_blocks-Moves w target (first ∷ bs) s a small)
          ])
        ]

  use_range-Moves :
      (w : World) (target : ℕ) (head : Option BlockReference) (to count : ℕ) (f : Fetched) (s : Run)
      → s.progress.next_block + count < 2 ^ 64
      → ((bs : List BlockReference)
          → f ≡ blocks bs
          → AreNumbered s.progress.next_block bs × (length bs ≡ count))
      → Moves (s.progress.next_block + count) (use_range w c target head to f s)
  unfolding use_range
  use_range-Moves w target head to count (broken missing failing) s small k =
      elim (Bool-cases (missing && (not failing || w.race s.moment))) [
        | inl e ↦ rw e tt
        | inr e ↦ rw e tt
      ]
  use_range-Moves w target head to count (blocks bs) s small k = elim (Bool-cases (is_chain bs)) [
    | inl e ↦ rw e (
        subst (λ n. Moves (s.progress.next_block + n) (check_range w c target head to bs s))
          (k bs refl).1
          (check_range-Moves w target head to bs s (k bs refl).0 (omega (arith, (k bs refl).1))))
    | inr e ↦ rw e tt
  ]

  -- A round that goes on has moved the cursor past the end of its range.
  advance_range-Moves :
      (w : World) (target : ℕ) (head : Option BlockReference) (s : Run)
      → s.progress.next_block ≤ target
      → target + 1 < 2 ^ 64
      → (n : ℕ) × (s.progress.next_block < n)
        × (n ≤ target + 1)
        × Moves n (advance_range w c target head s)
  unfolding advance_range
  advance_range-Moves w target head s le small =
      let next = s.progress.next_block in
      let to = range_end c next target in
      let bounds : (next ≤ to) × (to ≤ target) = range_end_bounds c next target le small in
      after_range w target head s to bounds.0 bounds.1 small
    where
      after_range :
          (w : World) (target : ℕ) (head : Option BlockReference) (s : Run) (to : ℕ)
          → s.progress.next_block ≤ to
          → to ≤ target
          → target + 1 < 2 ^ 64
          → (n : ℕ) × (s.progress.next_block < n)
            × (n ≤ target + 1)
            × Moves n (
                use_range w c target head to
                  (gather (fetch w (to - s.progress.next_block + 1) s.progress.next_block s.moment))
                  (tick (to - s.progress.next_block + 1) s))
      after_range w target head s to lo hi small =
          let next = s.progress.next_block in
          let count = to - next + 1 in
          (
            next + count,
            omega arith,
            omega arith,
            use_range-Moves w target head to count (gather (fetch w count next s.moment))
                (tick count s) (omega arith)
                (λ bs got. fetch-AreNumbered w count next s.moment bs got),
          )

  resume-Ends :
      (n : ℕ) (rest : Run → Run × Status) (r : Run × Status)
      → Moves n r
      → ((t : Run) → t.progress.next_block ≡ n → Ends (rest t))
      → Ends (resume rest r)
  resume-Ends n rest (s, continues) h k = k s h
  resume-Ends n rest (s, returns) h k = tt
  resume-Ends n rest (s, fails e) h k = tt
  resume-Ends n rest (s, stuck) h k = h

  replay-Ends :
      (w : World) (target : ℕ) (head : Option BlockReference) (fuel : ℕ) (s : Run)
      → target + 1 < 2 ^ 64
      → 0 < fuel
      → target + 1 < s.progress.next_block + fuel
      → Ends (replay w c target head fuel s)
  unfolding replay
  replay-Ends w target head zero s small some_fuel enough = absurd (omega arith)
  replay-Ends w target head (suc fuel) s small some_fuel enough =
      elim (Bool-cases (ltb target s.progress.next_block)) [
        | inl done ↦ rw done tt
        | inr more ↦
            let (n, above, below, moves) =
              advance_range-Moves w target head s (ground arith) small in
            rw more (
              resume-Ends n (replay w c target head fuel) (advance_range w c target head s) moves
                (λ t at. replay-Ends w target head fuel t small (omega arith) (omega arith)))
      ]

  resume-kept :
      (rest : Run → Run × Status) (r : Run × Status)
      → Ends r
      → ((t : Run) → Ends (rest t))
      → Ends (resume rest r)
  resume-kept rest (s, continues) h k = k s
  resume-kept rest (s, returns) h k = tt
  resume-kept rest (s, fails e) h k = tt
  resume-kept rest (s, stuck) h k = h

  replayed :
      (w : World) (target : ℕ) (head : Option BlockReference) (s : Run)
      → target + 1 < 2 ^ 64
      → Ends (replay w c target head (rounds target) s)
  replayed w target head s small =
      replay-Ends w target head (rounds target) s small (omega arith) (omega arith)

  advance-Ends :
      (w : World) (target : ℕ) (head : Option BlockReference) (s : Run)
      → target + 1 < 2 ^ 64
      → Ends (advance w c target head s)
  unfolding advance rollback_orphans
  advance-Ends w target head s small = elim (Bool-cases (is_extension head s.progress)) [
    | inl e ↦ rw e (replayed w target head s small)
    | inr e ↦ rw e (
        resume-kept (replay w c target head (rounds target)) (rollback_orphans w s)
          (roll_back-Ends w s.progress.recent s) (λ t. replayed w target head t small))
  ]

Ends-settled : (r : Run × Status) → Ends r → r.1 ≢ stuck
Ends-settled (s, continues) h = λ e. absurd (ground arith)
Ends-settled (s, returns) h = λ e. absurd (ground arith)
Ends-settled (s, fails x) h = λ e. absurd (ground arith)
Ends-settled (s, stuck) h = absurd h

-- For any answers of the endpoint, any outcome of `Handle` and of the commits, and any progress:
-- `advance` to a target that is not the largest uint64 ends within its target + 2 rounds, whether it
-- first rolls back or not.
pub advance_ends :
    (w : World) (c : Settings) (target : ℕ) (head : Option BlockReference) (s : Run)
    → target + 1 < 2 ^ 64
    → (advance w c target head s).1 ≢ stuck
advance_ends w c target head s small =
    Ends-settled (advance w c target head s) (advance-Ends c w target head s small)
