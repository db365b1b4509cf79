-- ===== src/Evm/Blocks/Journal.antt =====
-- blocks.go, `trim`: what it does to a journal.
use monitord.Base.{
  ℕ, ◌-◌, ◌≡◌, refl, sym, ap, inl, inr, true, List, [], ◌∷◌, ◌++◌, arith, Bool-cases, ltb, leb,
}
use mathlib.Core.List.{append-nil}
use monitord.Evm.Blocks.{BlockReference, contiguous, keep_before, drop_finalized, trim}

keep_before-prefix :
    (finalized : ℕ) (r : BlockReference) (kept rs older : List BlockReference)
    → rs ≡ kept ++ older
    → (dropped : List BlockReference) × (r ∷ rs ≡ keep_before finalized r kept ++ dropped)
keep_before-prefix finalized r [] rs older e = elim (Bool-cases (leb r.number finalized)) [
  | inl b ↦ (r ∷ rs, rw b refl)
  | inr b ↦ (older, rw b (ap (λ l. r ∷ l) e))
]
keep_before-prefix finalized r (k ∷ kept) rs older e = (older, ap (λ l. r ∷ l) e)

-- What is dropped is at the old end.
pub drop_finalized-prefix :
    (finalized : ℕ) (rs : List BlockReference)
    → (older : List BlockReference) × (rs ≡ drop_finalized finalized rs ++ older)
unfolding drop_finalized
drop_finalized-prefix finalized [] = ([], refl)
drop_finalized-prefix finalized (r ∷ rs) =
    let (older, e) = drop_finalized-prefix finalized rs in
    keep_before-prefix finalized r (drop_finalized finalized rs) rs older e

pub trim-prefix :
    (head confirmations : ℕ) (rs : List BlockReference)
    → (older : List BlockReference) × (rs ≡ trim head confirmations rs ++ older)
unfolding trim
trim-prefix head confirmations rs = elim (Bool-cases (ltb head confirmations)) [
  | inl e ↦ ([], rw e (sym (append-nil rs)))
  | inr e ↦ rw e (drop_finalized-prefix (head - confirmations) rs)
]

pub contiguous-prefix :
    (rs older : List BlockReference) → contiguous (rs ++ older) ≡ true → contiguous rs ≡ true
unfolding contiguous
contiguous-prefix [] older h = refl
contiguous-prefix (r ∷ []) older h = ground arith
contiguous-prefix (r ∷ s ∷ rs) older h = ground (arith, contiguous-prefix (s ∷ rs) older)
