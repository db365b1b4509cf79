-- ===== src/Evm/Blocks/Canonical.antt =====
-- blocks.go, `rollbackOrphans`: where it stops.
use mathlib.Core.Path.{subst}
use monitord.Base.{
  ℕ, ◌-◌, ◌≡◌, ◌⊎◌, refl, inl, inr, true, ◌&&◌, text_eq, List, [], ◌∷◌, arith, Bool-cases,
  if◌then◌else◌, ◌==◌,
}
use monitord.Evm.Blocks.{
  BlockReference, World, Run, Reply, unavailable, failed, block, Status, continues, returns, stuck,
  fails, Handling, commits, missing_receipt, handle_fails, commit_fails, checked, is_empty,
  following, tick, deliver, removal, popped, after_removal, when_replaced, unless_canonical,
  roll_back, rollback_orphans, beyond_journal, inconsistent_journal,
}

-- An answer of the endpoint has the parent's hash below the cursor.
pub record Confirmed (w : World) (s : Run) : Type 0 where
  pub asked : ℕ
  pub found : BlockReference
  pub answer :
      checked (s.progress.next_block - 1) (w.reply asked (s.progress.next_block - 1)) ≡ block found
  pub same : text_eq found.hash s.progress.canonical_parent ≡ true

abbrev pub IsCanonical : World → Run → Type 0
IsCanonical w s =
    (s.progress.next_block ≡ 0) ⊎ ((is_empty s.progress.canonical_parent ≡ true) ⊎ Confirmed w s)

abbrev Stops : World → Run × Status → Type 0
Stops w (s, continues) = IsCanonical w s
Stops w (s, returns) = Unit
Stops w (s, stuck) = Unit
Stops w (s, fails e) = Unit

module _ (w : World) where
  after_removal-Stops :
      (r : Run × Handling) (rest : Run → Run × Status)
      → ((t : Run) → Stops w (rest t))
      → Stops w (after_removal r rest)
  after_removal-Stops (s, commits) rest k = k s
  after_removal-Stops (s, missing_receipt) rest k = tt
  after_removal-Stops (s, handle_fails) rest k = tt
  after_removal-Stops (s, commit_fails durable) rest k = tt

  when_replaced-Stops :
      (s : Run) (r : Reply) (rest : Run → Run × Status)
      → checked (s.progress.next_block - 1) (w.reply s.moment (s.progress.next_block - 1)) ≡ r
      → ((t : Run) → Stops w (rest t))
      → Stops w (when_replaced s.progress.canonical_parent r (tick 1 s) rest)
  when_replaced-Stops s unavailable rest e k = tt
  when_replaced-Stops s failed rest e k = tt
  when_replaced-Stops s (block b) rest e k =
      elim (Bool-cases (text_eq b.hash s.progress.canonical_parent)) [
        | inl same ↦
            rw same (inr (inr (record { asked = s.moment; found = b; answer = e; same = same })))
        | inr other ↦ rw other (k (tick 1 s))
      ]

  unless_canonical-Stops :
      (s : Run) (rest : Run → Run × Status)
      → ((t : Run) → Stops w (rest t))
      → Stops w (unless_canonical w s rest)
  unfolding unless_canonical
  unless_canonical-Stops s rest k = elim (Bool-cases (s.progress.next_block == 0)) [
    | inl origin ↦ rw origin (inl (ground arith))
    | inr above ↦ elim (Bool-cases (is_empty s.progress.canonical_parent)) [
      | inl none_known ↦ rw (above, none_known) (inr (inl none_known))
      | inr known ↦ rw (above, known) (when_replaced-Stops s _ rest refl k)
    ]
  ]

  roll_back-Stops : (recent : List BlockReference) (s : Run) → Stops w (roll_back w recent s)
  unfolding roll_back
  roll_back-Stops [] s = unless_canonical-Stops s (λ t. (t, fails beyond_journal)) (λ t. tt)
  roll_back-Stops (last ∷ older) s =
      unless_canonical-Stops s
        (λ t.
          if following last.number == t.progress.next_block
            && text_eq last.hash t.progress.canonical_parent
          then after_removal (deliver w (removal last) (popped t.progress last older) t)
              (roll_back w older)
          else (t, fails inconsistent_journal))
        (λ t.
          elim (Bool-cases (
            following last.number == t.progress.next_block
            && text_eq last.hash t.progress.canonical_parent)) [
              | inl e ↦ rw e (
                  after_removal-Stops (deliver w (removal last) (popped t.progress last older) t)
                    (roll_back w older) (roll_back-Stops older))
              | inr e ↦ rw e tt
            ])

at_stop :
    (w : World) (r : Run × Status) (s : Run) → r ≡ (s, continues) → Stops w r → IsCanonical w s
at_stop w r s e h = subst (Stops w) e h

-- Where `rollbackOrphans` returns nil, the cursor is at block 0 or has no parent, or the endpoint
-- answered a request for the block below the cursor with the hash that the progress has for it.
pub rollback_orphans-IsCanonical :
    (w : World) (s t : Run) → rollback_orphans w s ≡ (t, continues) → IsCanonical w t
unfolding rollback_orphans
rollback_orphans-IsCanonical w s t e =
    at_stop w (rollback_orphans w s) t e (roll_back-Stops w s.progress.recent s)
