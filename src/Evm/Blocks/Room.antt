-- ===== src/Evm/Blocks/Room.antt =====
-- blocks.go, `trim` and the check of `advance` for a full journal: the length of the journal.
use monitord.Base.{
  ℕ, suc, ◌+◌, ◌-◌, ◌^◌, ◌≤◌, ◌<◌, ◌≡◌, inl, inr, true, false, List, [], ◌∷◌, arith, All,
  Bool-cases, ltb, leb, length,
}
use monitord.Evm.Blocks.{
  BlockReference, BlockProgress, following, contiguous, follows_journal, keep_before,
  drop_finalized, trim, validate_progress,
}
use monitord.Evm.Blocks.Advance.{Settings, valid_settings, extended}

-- Each number is one above the next one.
abbrev Descends : List BlockReference → Type 0
Descends [] = Unit
Descends (r ∷ []) = Unit
Descends (r ∷ o ∷ older) = (r.number ≡ suc o.number) × Descends (o ∷ older)

abbrev IsBelowTop : BlockReference → Type 0
IsBelowTop r = r.number + 1 < 2 ^ 64

following-below : (n : ℕ) → n + 1 < 2 ^ 64 → following n ≡ suc n
unfolding following
following-below n h = omega arith

contiguous-Descends :
    (bs : List BlockReference) → contiguous bs ≡ true → All IsBelowTop bs → Descends bs
unfolding contiguous
contiguous-Descends [] v small = tt
contiguous-Descends (r ∷ []) v small = tt
contiguous-Descends (r ∷ o ∷ older) v small =
    let next = following-below o.number small.1.0 in
    (ground (arith, next), contiguous-Descends (o ∷ older) (ground arith) small.1)

next-Descends :
    (p : BlockProgress) (b : BlockReference)
    → follows_journal p.next_block p.canonical_parent p.recent ≡ true
    → contiguous p.recent ≡ true
    → All IsBelowTop p.recent
    → b.number ≡ p.next_block
    → Descends (b ∷ p.recent)
unfolding follows_journal
next-Descends p b cursor v small at = from p.recent cursor v small
  where
    from :
        (recent : List BlockReference)
        → follows_journal p.next_block p.canonical_parent recent ≡ true
        → contiguous recent ≡ true
        → All IsBelowTop recent
        → Descends (b ∷ recent)
    from [] cursor v small = tt
    from (last ∷ older) cursor v small =
        let next = following-below last.number small.0 in
        (ground (arith, next, at), contiguous-Descends (last ∷ older) v small)

length-Descends :
    (r : BlockReference) (older : List BlockReference)
    → Descends (r ∷ older)
    → length (r ∷ older) ≤ r.number + 1
length-Descends r [] d = omega arith
length-Descends r (o ∷ older) (e, d) = let rest = length-Descends o older d in omega arith

length-keep_before :
    (finalized n : ℕ) (r : BlockReference) (kept : List BlockReference)
    → r.number ≡ suc n
    → length kept ≤ n - finalized
    → length (keep_before finalized r kept) ≤ r.number - finalized
length-keep_before finalized n r [] e h = elim (Bool-cases (leb r.number finalized)) [
  | inl le ↦ rw le (omega arith)
  | inr gt ↦ rw gt (ground arith)
]
length-keep_before finalized n r (k ∷ kept) e h = omega arith

length-drop_finalized :
    (finalized : ℕ) (r : BlockReference) (older : List BlockReference)
    → Descends (r ∷ older)
    → length (drop_finalized finalized (r ∷ older)) ≤ r.number - finalized
unfolding drop_finalized
length-drop_finalized finalized r [] d = elim (Bool-cases (leb r.number finalized)) [
  | inl le ↦ rw le (omega arith)
  | inr gt ↦ rw gt (ground arith)
]
length-drop_finalized finalized r (o ∷ older) (e, d) =
    length-keep_before finalized o.number r (drop_finalized finalized (o ∷ older)) e
      (length-drop_finalized finalized o older d)

length-trim :
    (target confirmations : ℕ) (b : BlockReference) (older : List BlockReference)
    → Descends (b ∷ older)
    → b.number ≤ target
    → length (trim target confirmations (b ∷ older)) ≤ confirmations
unfolding trim
length-trim target confirmations b older d le = elim (Bool-cases (ltb target confirmations)) [
  | inl low ↦ let all = length-Descends b older d in rw low (ground (arith, all))
  | inr high ↦
      let kept = length-drop_finalized (target - confirmations) b older d in
      rw high (ground (arith, kept))
]

-- With settings that `validate` accepts and a progress that passes its validation, with no block
-- numbered 2^64 - 1: after a block at the cursor, up to the target, the trimmed journal holds at most
-- `confirmations` blocks, so that the check for a full journal is false.
pub extended_fits :
    (target : ℕ) (c : Settings) (p : BlockProgress) (b : BlockReference)
    → valid_settings c ≡ true
    → validate_progress c.chain_id c.max_recent p ≡ true
    → All IsBelowTop p.recent
    → b.number ≡ p.next_block
    → b.number ≤ target
    → (length (extended target c p b).recent ≤ c.confirmations)
      × (ltb c.max_recent (length (extended target c p b).recent) ≡ false)
unfolding valid_settings validate_progress extended
extended_fits target c p b settings valid small at le =
    let d = next-Descends p b (ground arith) (ground arith) small at in
    let kept = length-trim target c.confirmations b p.recent d le in (kept, ground (arith, kept))
