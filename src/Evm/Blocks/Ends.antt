-- ===== src/Evm/Blocks/Ends.antt =====
-- blocks.go, `rollbackOrphans`: the rounds of its loop.
use monitord.Base.{
  ◌-◌, Text, text_eq, inl, inr, ◌&&◌, ◌||◌, List, [], ◌∷◌, Bool-cases, if◌then◌else◌, ◌==◌,
}
use monitord.Evm.Blocks.{
  BlockReference, Handling, commits, missing_receipt, handle_fails, commit_fails, World, Run,
  Status, continues, returns, stuck, fails, tick, deliver, roll_back, unless_canonical,
  when_replaced, after_removal, Reply, unavailable, failed, block, removal, popped, following,
  is_empty, checked, beyond_journal, inconsistent_journal,
}

-- No loop has run out of fuel.
abbrev pub Ends : Run × Status → Type 0
Ends (s, stuck) = ⊥
Ends (s, continues) = Unit
Ends (s, returns) = Unit
Ends (s, fails e) = Unit

after_removal-Ends :
    (r : Run × Handling) (rest : Run → Run × Status)
    → ((t : Run) → Ends (rest t))
    → Ends (after_removal r rest)
after_removal-Ends (s, commits) rest k = k s
after_removal-Ends (s, missing_receipt) rest k = tt
after_removal-Ends (s, handle_fails) rest k = tt
after_removal-Ends (s, commit_fails durable) rest k = tt

when_replaced-Ends :
    (parent : Text) (r : Reply) (s : Run) (rest : Run → Run × Status)
    → ((t : Run) → Ends (rest t))
    → Ends (when_replaced parent r s rest)
when_replaced-Ends parent unavailable s rest k = tt
when_replaced-Ends parent failed s rest k = tt
when_replaced-Ends parent (block b) s rest k = elim (Bool-cases (text_eq b.hash parent)) [
  | inl e ↦ rw e tt
  | inr e ↦ rw e (k s)
]

unless_canonical-Ends :
    (w : World) (s : Run) (rest : Run → Run × Status)
    → ((t : Run) → Ends (rest t))
    → Ends (unless_canonical w s rest)
unfolding unless_canonical
unless_canonical-Ends w s rest k =
    elim (Bool-cases (s.progress.next_block == 0 || is_empty s.progress.canonical_parent)) [
      | inl e ↦ rw e tt
      | inr e ↦ rw e (
          when_replaced-Ends s.progress.canonical_parent
            (checked (s.progress.next_block - 1) (w.reply s.moment (s.progress.next_block - 1)))
            (tick 1 s) rest k)
    ]

-- The rollback takes a block off the journal each round.
pub roll_back-Ends :
    (w : World) (recent : List BlockReference) (s : Run) → Ends (roll_back w recent s)
unfolding roll_back
roll_back-Ends w [] s = unless_canonical-Ends w s (λ t. (t, fails beyond_journal)) (λ t. tt)
roll_back-Ends w (last ∷ older) s =
    unless_canonical-Ends w s
      (λ t.
        if following last.number == t.progress.next_block
          && text_eq last.hash t.progress.canonical_parent
        then after_removal (deliver w (removal last) (popped t.progress last older) t)
            (roll_back w older)
        else (t, fails inconsistent_journal))
      (λ t.
        elim (Bool-cases (
          following last.number == t.progress.next_block
          && text_eq last.hash t.progress.canonical_parent)) [
            | inl e ↦ rw e (
                after_removal-Ends (deliver w (removal last) (popped t.progress last older) t)
                  (roll_back w older) (roll_back-Ends w older))
            | inr e ↦ rw e tt
          ])
