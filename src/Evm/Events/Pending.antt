-- ===== src/Evm/Events/Pending.antt =====
-- catalog/quicknode/evm/events.go, `reconciled`: which logs of a range a cursor has behind it.
use monitord.Base.{
  ◌+◌, ◌^◌, ◌<◌, ◌≡◌, refl, ◌⊎◌, inl, inr, text_eq_refl, true, false, not, List, [], ◌∷◌, All,
  arith, Bool-cases,
}
use monitord.Base.Table.{select, All-imp}
use monitord.Evm.Blocks.{following}
use monitord.Evm.Events.{Log, EventsCursor, reconciled, cursor_at}

-- The order of the chain; the logs of one block number have one hash.
abbrev pub Precedes : Log → Log → Type 0
Precedes a b =
    (a.number < b.number) ⊎ ((a.number ≡ b.number) × (a.hash ≡ b.hash) × (a.index < b.index))

-- The logs of a range as the chain has them, and no index is the largest uint64.
abbrev pub IsAscending : List Log → Type 0
IsAscending [] = Unit
IsAscending (l ∷ ls) = (l.index + 1 < 2 ^ 64) × All (Precedes l) ls × IsAscending ls

-- The logs that are still to be delivered.
unfoldable pub pending : EventsCursor → List Log → List Log
unfolding select
pending c ls = select (λ l. not (reconciled c l)) ls

pub reconciled-Precedes :
    (c : EventsCursor) (a b : Log) → Precedes a b → reconciled c b ≡ true → reconciled c a ≡ true
unfolding reconciled
reconciled-Precedes c a b (inl lower) h = ground arith
reconciled-Precedes c a b (inr (same, hash, lower)) h = ground arith

pub reconciled-cursor_at :
    (c : EventsCursor) (l : Log) → l.index + 1 < 2 ^ 64 → reconciled (cursor_at c l) l ≡ true
unfolding reconciled following
reconciled-cursor_at c l small = ground (arith, text_eq_refl l.hash)

reconciled-past :
    (c : EventsCursor) (a b : Log)
    → Precedes a b
    → a.index + 1 < 2 ^ 64
    → reconciled (cursor_at c a) b ≡ false
unfolding reconciled following
reconciled-past c a b (inl lower) small = ground arith
reconciled-past c a b (inr (same, hash, lower)) small = ground arith

pending_whole :
    (c : EventsCursor) (ls : List Log) → All (λ l. reconciled c l ≡ false) ls → pending c ls ≡ ls
unfolding pending select
pending_whole c [] h = refl
pending_whole c (l ∷ ls) h = ground (arith, h.0, pending_whole c ls h.1)

pub pending-cursor_at :
    (c : EventsCursor) (l : Log) (ls : List Log)
    → l.index + 1 < 2 ^ 64
    → All (Precedes l) ls
    → pending (cursor_at c l) ls ≡ ls
pending-cursor_at c l ls small before = pending_whole (cursor_at c l) ls (
    All-imp (Precedes l) (λ k. reconciled (cursor_at c l) k ≡ false) ls
      (λ k p. reconciled-past c l k p small) before)

not_reconciled :
    (c : EventsCursor) (a b : Log) → reconciled c a ≡ false → Precedes a b → reconciled c b ≡ false
not_reconciled c a b h p = elim (Bool-cases (reconciled c b)) [
  | inl hit ↦ cc (reconciled-Precedes c a b p hit)
  | inr miss ↦ miss
]

-- Once a log is to be delivered, so are all that follow it.
pub pending_from :
    (c : EventsCursor) (l : Log) (ls : List Log)
    → reconciled c l ≡ false
    → All (Precedes l) ls
    → pending c ls ≡ ls
pending_from c l ls h before =
    pending_whole c ls (
      All-imp (Precedes l) (λ k. reconciled c k ≡ false) ls (λ k p. not_reconciled c l k h p)
        before)

pub pending-hit :
    (c : EventsCursor) (l : Log) (ls : List Log)
    → reconciled c l ≡ true
    → pending c (l ∷ ls) ≡ pending c ls
unfolding pending select
pending-hit c l ls h = ground (arith, h)

pub pending-miss :
    (c : EventsCursor) (l : Log) (ls : List Log)
    → reconciled c l ≡ false
    → pending c (l ∷ ls) ≡ l ∷ pending c ls
unfolding pending select
pending-miss c l ls h = ground (arith, h)
