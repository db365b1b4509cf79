-- ===== src/Evm/Blocks/Range.antt =====
-- rpc.go, `blocksByNumber`: what its range of blocks looks like.
use monitord.Base.{
  ℕ, zero, suc, ◌+◌, ◌^◌, ◌≤◌, ◌<◌, Text, eq_of_text_eq, ◌≡◌, refl, sym, ap, true, ◌&&◌, List, [],
  ◌∷◌, arith, Bool-cases, ◌==◌, length, inl, inr,
}
use mathlib.Core.Path.{subst}
use monitord.Evm.Blocks.{
  BlockReference, World, Reply, unavailable, failed, block, checked, valid_hash,
}
use monitord.Evm.Blocks.Advance.{
  Settings, Fetched, blocks, broken, gathered, gather, fetch, is_chain, range_end,
}

-- The blocks have the numbers from `n` on and valid hashes.
abbrev pub AreNumbered : ℕ → List BlockReference → Type 0
AreNumbered n [] = Unit
AreNumbered n (b ∷ bs) =
    (b.number ≡ n)
    × (valid_hash b.hash ≡ true)
    × (valid_hash b.parent_hash ≡ true)
    × AreNumbered (n + 1) bs

-- And they form a chain on the parent.
abbrev pub Fits : ℕ → Text → List BlockReference → Type 0
Fits n parent [] = Unit
Fits n parent (b ∷ bs) =
    (b.number ≡ n)
    × (valid_hash b.hash ≡ true)
    × (valid_hash b.parent_hash ≡ true)
    × (0 < n → b.parent_hash ≡ parent)
    × Fits (n + 1) b.hash bs

pub AreNumbered-Fits :
    (n : ℕ) (parent : Text) (first : BlockReference) (bs : List BlockReference)
    → AreNumbered n (first ∷ bs)
    → is_chain (first ∷ bs) ≡ true
    → (0 < n → first.parent_hash ≡ parent)
    → Fits n parent (first ∷ bs)
unfolding is_chain
AreNumbered-Fits n parent first [] a h p = (a.0, a.1, a.2, p, tt)
AreNumbered-Fits n parent first (b ∷ bs) a h p = (
  a.0,
  a.1,
  a.2,
  p,
  AreNumbered-Fits (n + 1) first.hash b bs a.3 (ground arith)
      (λ pos. eq_of_text_eq b.parent_hash first.hash (ground arith)),
)

pub checked-block :
    (n : ℕ) (r : Reply) (b : BlockReference)
    → checked n r ≡ block b
    → (b.number ≡ n) × (valid_hash b.hash ≡ true) × (valid_hash b.parent_hash ≡ true)
unfolding checked
checked-block n unavailable b h = cc
checked-block n failed b h = cc
checked-block n (block d) b h =
    elim (Bool-cases (d.number == n && (valid_hash d.hash && valid_hash d.parent_hash))) [
      | inl e ↦
          let same : d ≡ b = ground (arith, e) in
          subst
            (λ (x : BlockReference).
              (x.number ≡ n) × (valid_hash x.hash ≡ true) × (valid_hash x.parent_hash ≡ true))
            same (ground arith, ground arith, ground arith)
      | inr e ↦ absurd (ground (arith, e))
    ]

gathered-blocks :
    (r : Reply) (f : Fetched) (bs : List BlockReference)
    → gathered r f ≡ blocks bs
    → (b : BlockReference) × (rest : List BlockReference) × (r ≡ block b)
      × (f ≡ blocks rest)
      × (bs ≡ b ∷ rest)
gathered-blocks (block b) (blocks rest) bs h = (b, rest, refl, refl, cc)
gathered-blocks (block b) (broken m f) bs h = cc
gathered-blocks unavailable (blocks rest) bs h = cc
gathered-blocks unavailable (broken m f) bs h = cc
gathered-blocks failed (blocks rest) bs h = cc
gathered-blocks failed (broken m f) bs h = cc

pub fetch-AreNumbered :
    (w : World) (count from moment : ℕ) (bs : List BlockReference)
    → gather (fetch w count from moment) ≡ blocks bs
    → AreNumbered from bs × (length bs ≡ count)
unfolding fetch gather
fetch-AreNumbered w zero from moment bs h =
    let none_left : [] ≡ bs = cc in
    subst (λ l. AreNumbered from l × (length l ≡ 0)) none_left (tt, refl)
fetch-AreNumbered w (suc n) from moment bs h =
    let (b, rest, got, more, whole) =
      gathered-blocks (checked from (w.reply moment from))
        (gather (fetch w n (from + 1) (moment + 1))) bs h in
    let (number, hash, parent) = checked-block from (w.reply moment from) b got in
    let (numbered, count) = fetch-AreNumbered w n (from + 1) (moment + 1) rest more in
    subst (λ l. AreNumbered from l × (length l ≡ suc n)) (sym whole)
      ((number, hash, parent, numbered), ap suc count)

pub range_end_bounds :
    (c : Settings) (next target : ℕ)
    → next ≤ target
    → target + 1 < 2 ^ 64
    → (next ≤ range_end c next target) × (range_end c next target ≤ target)
range_end_bounds c next target le small = (ground arith, ground arith)
