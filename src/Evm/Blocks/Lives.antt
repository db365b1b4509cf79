-- ===== src/Evm/Blocks/Lives.antt =====
-- blocks.go, `run` and `loadProgress`: the deliveries of all lives of a monitor.
use monitord.Base.{
  ℕ, ◌+◌, ◌^◌, ◌<◌, ◌≡◌, refl, inl, inr, true, none, some, List, [], ◌∷◌, arith, All, Bool-cases,
  ok, err, Result, ◌==◌, ◌-◌, Text,
}
use mathlib.Core.Path.{subst}
use monitord.Evm.Blocks.{
  BlockProgress, World, Run, Status, continues, returns, stuck, fails, validate_progress, checked,
  block, unavailable, failed, follows_journal, contiguous, Failure, Reply,
}
use monitord.Evm.Blocks.Advance.{
  Settings, Wakeup, announced, polled, wake, next_wakeup, listen, load_progress, live,
  start_progress, start_block, start_at, started,
}
use monitord.Evm.Blocks.Chain.{
  Chain, Describes, Describes-validate_progress, is_linked, cursor-nonempty,
}
use monitord.Evm.Blocks.Range.{checked-block}
use monitord.Evm.Blocks.Replay.{Tracks, IsInStep, Holds}
use monitord.Evm.Blocks.Forward.{advance-Holds}

-- The head leaves room for the next number on a uint64.
abbrev pub IsSmall : Wakeup → Type 0
IsSmall (announced head) = head.number + 1 < 2 ^ 64
IsSmall (polled head) = head + 1 < 2 ^ 64

module _ (w : World) (c : Settings) (base : Chain) where
  wake-Holds : (x : Wakeup) (s : Run) → IsSmall x → IsInStep c base s → Holds c base (wake w c x s)
  unfolding wake
  wake-Holds (announced head) s small i = advance-Holds c base w head.number (some head) s small i
  wake-Holds (polled head) s small i = advance-Holds c base w head none s small i

  next_wakeup-Tracks :
      (rest : Run → Run × Status) (r : Run × Status)
      → Holds c base r
      → ((t : Run) → IsInStep c base t → Tracks c base (rest t).0)
      → Tracks c base (next_wakeup rest r).0
  next_wakeup-Tracks rest (s, continues) h k = k s h
  next_wakeup-Tracks rest (s, returns) h k = k s h
  next_wakeup-Tracks rest (s, stuck) h k = h.0
  next_wakeup-Tracks rest (s, fails e) h k = h

  listen-Tracks :
      (xs : List Wakeup) (s : Run)
      → All IsSmall xs
      → IsInStep c base s
      → Tracks c base (listen w c xs s).0
  unfolding listen
  listen-Tracks [] s small i = i.0
  listen-Tracks (x ∷ xs) s small i =
      next_wakeup-Tracks (listen w c xs) (wake w c x s) (wake-Holds x s small.0 i)
        (λ t j. listen-Tracks xs t small.1 j)

  -- A life starts: what is saved is accepted.
  pub load_progress-Tracks :
      (s : Run) → Tracks c base s → load_progress c s ≡ ok (record s { progress = s.saved })
  unfolding load_progress
  load_progress-Tracks s t = rw (Describes-validate_progress c s.saved t.chain t.described) refl

  -- For any answers of the endpoint, failures of `Handle` and failed commits that are durable or not,
  -- and any number of lives: the deliveries that were saved are one walk of the stack machine, so that
  -- every applied block extends the one below by number and parent hash and every removal takes off
  -- the newest block, and the saved progress stands at the top of that chain and passes the next
  -- start's validation. It starts from such a state, and no head is the largest uint64.
  pub live-Tracks :
      (lives : List (List Wakeup)) (s : Run)
      → All (All IsSmall) lives
      → Tracks c base s
      → Tracks c base (live w c lives s)
        × (validate_progress c.chain_id c.max_recent (live w c lives s).saved ≡ true)
  unfolding live
  live-Tracks [] s small t = (t, Describes-validate_progress c s.saved t.chain t.described)
  live-Tracks (xs ∷ lives) s small t =
      let t' : Run = record s { progress = s.saved } in
      let loaded : Tracks c base t' = record {
        chain = t.chain;
        played = t.played;
        described = t.described;
      } in
      rw (load_progress-Tracks s t, live)
        (live-Tracks lives (listen w c xs t').0 small.1
          (listen-Tracks xs t' small.0 (loaded, refl)))

  at_start :
      (next : ℕ) (parent : Text)
      → follows_journal next parent [] ≡ true
      → Describes c
          (record {
            chain_id = c.chain_id;
            next_block = next;
            canonical_parent = parent;
            recent = [];
          })
          []
  unfolding contiguous is_linked
  at_start next parent e = record {
    chain_id = refl;
    bounded = omega arith;
    valid = refl;
    cursor = e;
    older = [];
    journal = refl;
    linked = refl;
    small = tt;
    top = tt;
  }

  started-Describes :
      (start : ℕ) (r q : Reply) (p : BlockProgress)
      → checked (start - 1) r ≡ q
      → started c start q ≡ ok p
      → Describes c p []
  started-Describes start r unavailable p e h = absurd (ground arith)
  started-Describes start r failed p e h = absurd (ground arith)
  started-Describes start r (block b) p e h =
      let (_, valid, _) = checked-block (start - 1) r b e in
      let same : record {
        chain_id = c.chain_id;
        next_block = start;
        canonical_parent = b.hash;
        recent = [];
      }
          ≡ p =
        ground arith in
      subst (λ q. Describes c q []) same
        (at_start start b.hash (cursor-nonempty start b.hash valid))

  start_at-Describes :
      (moment : ℕ) (r : Result Failure ℕ) (p : BlockProgress)
      → start_at w c moment r ≡ ok p
      → Describes c p []
  unfolding start_at follows_journal
  start_at-Describes moment (err e) p h = absurd (ground arith)
  start_at-Describes moment (ok start) p h = elim (Bool-cases (start == 0)) [
    | inl e ↦
        let same : record {
          chain_id = c.chain_id;
          next_block = 0;
          canonical_parent = [];
          recent = [];
        }
            ≡ p =
          ground (arith, e) in
        subst (λ q. Describes c q []) same (at_start 0 [] refl)
    | inr e ↦ started-Describes start (w.reply moment (start - 1)) _ p refl (ground (arith, e))
  ]

  -- The first progress describes the empty chain.
  pub start_progress-Describes :
      (head moment : ℕ) (p : BlockProgress)
      → start_progress w c head moment ≡ ok p
      → Describes c p []
  unfolding start_progress
  start_progress-Describes head moment p h =
      start_at-Describes moment (start_block c.backfill_from head) p h
