-- ===== src/Evm/Events/Bounds.antt =====
-- catalog/quicknode/evm/events.go, `reconcileOne`: the end of a range.
use monitord.Base.{ℕ, ◌+◌, ◌-◌, ◌^◌, ◌%◌, ◌≤◌, ◌<◌, ◌⊎◌, inl, inr, min, Bool-cases, leb, arith}
use monitord.Evm.Events.Reconcile.{RangeSettings, range_size, last_block}

range-bounds :
    (next size target : ℕ)
    → next ≤ target
    → target < 2 ^ 64
    → 1 ≤ size
    → size < 2 ^ 64
    → ((next + size ≤ 2 ^ 64)
        × (next ≤ min ((next + size + (2 ^ 64 - 1)) % 2 ^ 64) target)
        × (min ((next + size + (2 ^ 64 - 1)) % 2 ^ 64) target ≤ target)
        × (min ((next + size + (2 ^ 64 - 1)) % 2 ^ 64) target < next + size))
      ⊎ ((2 ^ 64 < next + size) × (min ((next + size + (2 ^ 64 - 1)) % 2 ^ 64) target < next))
range-bounds next size target le small positive bounded =
    elim (Bool-cases (leb (next + size) (2 ^ 64))) [
      | inl below ↦
          let fits : next + size ≤ 2 ^ 64 = ground arith in
          inl (fits, omega (arith, fits), omega (arith, fits), omega (arith, fits))
      | inr above ↦
          let wraps : 2 ^ 64 < next + size = ground arith in inr (wraps, omega (arith, wraps))
    ]

range_size-positive : (c : RangeSettings) → 1 ≤ range_size c
range_size-positive c = ground arith

-- Up to a confirmed block, the end of a range lies in the range and not beyond that block where the
-- sum on uint64 does not wrap; where it wraps, the end lies before the beginning.
pub last_block-bounds :
    (c : RangeSettings) (next target : ℕ)
    → next ≤ target
    → target < 2 ^ 64
    → range_size c < 2 ^ 64
    → ((next + range_size c ≤ 2 ^ 64)
        × (next ≤ last_block c next target)
        × (last_block c next target ≤ target)
        × (last_block c next target < next + range_size c))
      ⊎ ((2 ^ 64 < next + range_size c) × (last_block c next target < next))
unfolding last_block
last_block-bounds c next target le small size =
    range-bounds next (range_size c) target le small (range_size-positive c) size
