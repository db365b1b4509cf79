-- ===== src/Evm/Blocks/Forward.antt =====
-- blocks.go, `advance`: the blocks that it applies.
use mathlib.Core.Path.{subst}
use monitord.Base.{
  ℕ, zero, suc, ◌+◌, ◌-◌, ◌^◌, ◌≤◌, ◌<◌, text_eq, eq_of_text_eq, ◌≡◌, refl, sym, ap, ◌∙◌, inl, inr,
  true, false, ◌&&◌, ◌||◌, not, Option, some, List, [], ◌∷◌, arith, Bool-cases, ltb, length,
}
use monitord.Evm.Blocks.{
  BlockReference, BlockProgress, Handling, commits, missing_receipt, handle_fails, commit_fails,
  World, Run, Status, continues, returns, stuck, fails, tick, deliver, follows, rollback_orphans,
}
use monitord.Evm.Blocks.Advance.{
  Settings, extended, application, after_application, uncommitted, apply_blocks, is_replaced,
  check_range, Fetched, blocks, broken, use_range, is_chain, advance_range, fetch, gather,
  range_end, resume, replay, advance, is_extension, rounds,
}
use monitord.Evm.Blocks.Chain.{Chain, act, Describes, extended-Describes, following-small}
use monitord.Evm.Blocks.Range.{
  AreNumbered, Fits, AreNumbered-Fits, fetch-AreNumbered, range_end_bounds,
}
use monitord.Evm.Blocks.Replay.{
  IsInStep, Holds, Handled, tick-IsInStep, settled_as-Handled, settled_as-progress, roll_back-Holds,
}

count_bound :
    (next to target n : ℕ)
    → next ≤ to
    → to ≤ target
    → target + 1 < 2 ^ 64
    → n ≡ to - next + 1
    → next + n < 2 ^ 64
count_bound next to target n lo hi small e = omega arith

module _ (c : Settings) (base : Chain) where
  after_application-Holds :
      (r : Run × Handling) (rest : Run → Run × Status)
      → Handled c base r
      → ((t : Run) → r ≡ (t, commits) → IsInStep c base t → Holds c base (rest t))
      → Holds c base (after_application r rest)
  after_application-Holds (s, commits) rest h k = k s refl h
  after_application-Holds (s, missing_receipt) rest h k = h
  after_application-Holds (s, handle_fails) rest h k = h.0
  after_application-Holds (s, commit_fails durable) rest h k = h

  uncommitted-Holds : (s : Run) (h : Handling) → IsInStep c base s → Holds c base (s, uncommitted h)
  uncommitted-Holds s missing_receipt i = i
  uncommitted-Holds s handle_fails i = i.0
  uncommitted-Holds s commits i = i.0
  uncommitted-Holds s (commit_fails durable) i = i.0

  act-applied :
      (b : BlockReference) (chain : Chain)
      → follows b chain ≡ true
      → act false b chain ≡ some (b ∷ chain)
  unfolding act
  act-applied b chain f = rw f refl

  applied-Handled :
      (w : World) (target : ℕ) (b : BlockReference) (bs : List BlockReference) (s : Run)
      → Fits s.progress.next_block s.progress.canonical_parent (b ∷ bs)
      → suc s.progress.next_block < 2 ^ 64
      → length (extended target c s.progress b).recent ≤ c.max_recent
      → IsInStep c base s
      → Handled c base (deliver w (application b) (extended target c s.progress b) s)
  unfolding deliver
  applied-Handled w target b bs s (n, v, u, parent, more) small full (t, same) =
      let described : Describes c s.progress t.chain =
        subst (λ p. Describes c p t.chain) (sym same) t.described in
      let (fits, above) =
        extended-Describes c s.progress t.chain target b n parent v u (omega arith) full
          described in
      settled_as-Handled c base (application b) (extended target c s.progress b) s
        (w.handle s.moment (application b)) (t, same) (b ∷ t.chain) (act-applied b t.chain fits)
        above

  pub applied-cursor :
      (w : World) (target : ℕ) (b : BlockReference) (s t : Run)
      → b.number ≡ s.progress.next_block
      → suc s.progress.next_block < 2 ^ 64
      → deliver w (application b) (extended target c s.progress b) s ≡ (t, commits)
      → (t.progress.next_block ≡ s.progress.next_block + 1) × (t.progress.canonical_parent ≡ b.hash)
  unfolding deliver extended
  applied-cursor w target b s t n small e =
      let made =
        settled_as-progress c base (application b) (extended target c s.progress b) s t
          (w.handle s.moment (application b)) e in
      let number = following-small b.number (omega arith) in
      (
        ap (λ (p : BlockProgress). p.next_block) made ∙ omega arith,
        ap (λ (p : BlockProgress). p.canonical_parent) made,
      )

  pub apply_blocks-Holds :
      (w : World) (target : ℕ) (bs : List BlockReference) (s : Run)
      → Fits s.progress.next_block s.progress.canonical_parent bs
      → s.progress.next_block + length bs < 2 ^ 64
      → IsInStep c base s
      → Holds c base (apply_blocks w c target bs s)
  unfolding apply_blocks
  apply_blocks-Holds w target [] s f small i = i
  apply_blocks-Holds w target (b ∷ bs) s f small i =
      let next = extended target c s.progress b in
      elim (Bool-cases (ltb c.max_recent (length next.recent))) [
        | inl full ↦ rw full (
            uncommitted-Holds (tick 1 s) (w.handle s.moment (application b))
              (tick-IsInStep c base 1 s i))
        | inr fits ↦ rw fits (
            after_application-Holds (deliver w (application b) next s) (apply_blocks w c target bs)
              (applied-Handled w target b bs s f (omega arith) (ground arith) i)
              (λ t made j.
                let (next_block, parent) = applied-cursor w target b s t f.0 (omega arith) made in
                apply_blocks-Holds w target bs t
                  (subst (λ n. Fits n t.progress.canonical_parent bs) (sym next_block)
                    (subst (λ h. Fits (s.progress.next_block + 1) h bs) (sym parent) f.4))
                  (omega arith) j))
      ]

  pub check_range-Holds :
      (w : World) (target : ℕ) (head : Option BlockReference) (to : ℕ) (bs : List BlockReference)
      (s : Run)
      → AreNumbered s.progress.next_block bs
      → is_chain bs ≡ true
      → s.progress.next_block + length bs < 2 ^ 64
      → IsInStep c base s
      → Holds c base (check_range w c target head to bs s)
  unfolding check_range
  check_range-Holds w target head to [] s a h small i = i.0
  check_range-Holds w target head to (first ∷ bs) s a h small i =
      elim (Bool-cases (
        ltb 0 s.progress.next_block
        && not (text_eq first.parent_hash s.progress.canonical_parent))) [
          | inl bad ↦ rw bad i.0
          | inr good ↦ rw good (elim (Bool-cases (is_replaced head to (first ∷ bs))) [
            | inl gone ↦ rw gone i
            | inr here ↦ rw here (
                apply_blocks-Holds w target (first ∷ bs) s
                  (AreNumbered-Fits s.progress.next_block s.progress.canonical_parent first bs a h
                    (λ pos.
                      eq_of_text_eq first.parent_hash s.progress.canonical_parent (ground arith)))
                  small i)
          ])
        ]

  pub use_range-Holds :
      (w : World) (target : ℕ) (head : Option BlockReference) (to : ℕ) (f : Fetched) (s : Run)
      → ((bs : List BlockReference)
          → f ≡ blocks bs
          → AreNumbered s.progress.next_block bs × (s.progress.next_block + length bs < 2 ^ 64))
      → IsInStep c base s
      → Holds c base (use_range w c target head to f s)
  unfolding use_range
  use_range-Holds w target head to (broken missing failing) s k i =
      elim (Bool-cases (missing && (not failing || w.race s.moment))) [
        | inl e ↦ rw e i
        | inr e ↦ rw e i.0
      ]
  use_range-Holds w target head to (blocks bs) s k i = elim (Bool-cases (is_chain bs)) [
    | inl e ↦ rw e (check_range-Holds w target head to bs s (k bs refl).0 e (k bs refl).1 i)
    | inr e ↦ rw e i.0
  ]

  pub advance_range-Holds :
      (w : World) (target : ℕ) (head : Option BlockReference) (s : Run)
      → s.progress.next_block ≤ target
      → target + 1 < 2 ^ 64
      → IsInStep c base s
      → Holds c base (advance_range w c target head s)
  unfolding advance_range
  advance_range-Holds w target head s le small i =
      let next = s.progress.next_block in
      let to = range_end c next target in
      let count = to - next + 1 in
      let bounds : (next ≤ to) × (to ≤ target) = range_end_bounds c next target le small in
      use_range-Holds w target head to (gather (fetch w count next s.moment)) (tick count s)
        (λ bs got.
          let (numbered, size) = fetch-AreNumbered w count next s.moment bs got in
          (numbered, count_bound next to target (length bs) bounds.0 bounds.1 small size))
        (tick-IsInStep c base count s i)

  pub resume-Holds :
      (rest : Run → Run × Status) (r : Run × Status)
      → Holds c base r
      → ((t : Run) → IsInStep c base t → Holds c base (rest t))
      → Holds c base (resume rest r)
  resume-Holds rest (s, continues) h k = k s h
  resume-Holds rest (s, returns) h k = h
  resume-Holds rest (s, stuck) h k = h
  resume-Holds rest (s, fails e) h k = h

  replay-Holds :
      (w : World) (target : ℕ) (head : Option BlockReference) (fuel : ℕ) (s : Run)
      → target + 1 < 2 ^ 64
      → IsInStep c base s
      → Holds c base (replay w c target head fuel s)
  unfolding replay
  replay-Holds w target head zero s small i = i
  replay-Holds w target head (suc fuel) s small i =
      elim (Bool-cases (ltb target s.progress.next_block)) [
        | inl done ↦ rw done i
        | inr more ↦ rw more (
            resume-Holds (replay w c target head fuel) (advance_range w c target head s)
              (advance_range-Holds w target head s (ground arith) small i)
              (λ t j. replay-Holds w target head fuel t small j))
      ]

  pub advance-Holds :
      (w : World) (target : ℕ) (head : Option BlockReference) (s : Run)
      → target + 1 < 2 ^ 64
      → IsInStep c base s
      → Holds c base (advance w c target head s)
  unfolding advance rollback_orphans
  advance-Holds w target head s small i = elim (Bool-cases (is_extension head s.progress)) [
    | inl known ↦ rw known (replay-Holds w target head (rounds target) s small i)
    | inr other ↦ rw other (
        resume-Holds (λ t. replay w c target head (rounds target) t) (rollback_orphans w s)
          (roll_back-Holds c base w s.progress.recent s refl i)
          (λ t j. replay-Holds w target head (rounds target) t small j))
  ]
