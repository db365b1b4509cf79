-- ===== src/Evm/Blocks/Replay.antt =====
-- blocks.go, `rollbackOrphans` and `commit`: the saved deliveries as a walk of the stack of `Chain`.
use mathlib.Core.Path.{subst}
use monitord.Base.{
  ℕ, Text, text_eq, text_eq_refl, ◌≡◌, refl, sym, ap, ◌∙◌, inl, inr, true, false, ◌&&◌, ◌||◌, some,
  List, [], ◌∷◌, arith, Bool-cases, ◌==◌,
}
use monitord.Evm.Blocks.{
  BlockReference, BlockProgress, Delivery, Handling, commits, missing_receipt, handle_fails,
  commit_fails, World, Run, Reply, unavailable, failed, block, Status, continues, returns, stuck,
  fails, tick, settled_as, deliver, removal, popped, after_removal, when_replaced, unless_canonical,
  roll_back, following, is_empty,
}
use monitord.Evm.Blocks.Advance.{Settings}
use monitord.Evm.Blocks.Chain.{
  Chain, act, act_on, play, same_reference, Describes, popped-Describes,
}

-- What is saved: the deliveries are a walk from `base`, and the saved progress stands at its end.
pub record Tracks (c : Settings) (base : Chain) (s : Run) : Type 0 where
  pub chain : Chain
  pub played : play base s.delivered ≡ some chain
  pub described : Describes c s.saved chain

-- And the progress in memory is the saved one.
abbrev pub IsInStep : Settings → Chain → Run → Type 0
IsInStep c base s = Tracks c base s × (s.progress ≡ s.saved)

abbrev pub Holds : Settings → Chain → Run × Status → Type 0
Holds c base (s, continues) = IsInStep c base s
Holds c base (s, returns) = IsInStep c base s
Holds c base (s, stuck) = IsInStep c base s
Holds c base (s, fails e) = Tracks c base s

abbrev pub Handled : Settings → Chain → Run × Handling → Type 0
Handled c base (s, commits) = IsInStep c base s
Handled c base (s, missing_receipt) = IsInStep c base s
Handled c base (s, handle_fails) = IsInStep c base s
Handled c base (s, commit_fails durable) = Tracks c base s

module _ (c : Settings) (base : Chain) where
  pub tick-IsInStep : (n : ℕ) (s : Run) → IsInStep c base s → IsInStep c base (tick n s)
  tick-IsInStep n s (t, e) =
      (record { chain = t.chain; played = t.played; described = t.described }, e)

  pub settled_as-Handled :
      (d : Delivery) (next : BlockProgress) (s : Run) (h : Handling) (i : IsInStep c base s)
      (chain : Chain)
      → act d.removed d.reference i.0.chain ≡ some chain
      → Describes c next chain
      → Handled c base (settled_as d next s h)
  unfolding play act_on
  settled_as-Handled d next s commits (t, e) chain moved described = (
    record { chain = chain; played = ap (act_on d) t.played ∙ moved; described = described },
    refl,
  )
  settled_as-Handled d next s missing_receipt i chain moved described = tick-IsInStep 1 s i
  settled_as-Handled d next s handle_fails i chain moved described = tick-IsInStep 1 s i
  settled_as-Handled d next s (commit_fails true) (t, e) chain moved described = record {
    chain = chain;
    played = ap (act_on d) t.played ∙ moved;
    described = described;
  }
  settled_as-Handled d next s (commit_fails false) i chain moved described = (tick-IsInStep 1 s i).0

  after_removal-Holds :
      (r : Run × Handling) (rest : Run → Run × Status)
      → Handled c base r
      → ((t : Run) → r ≡ (t, commits) → IsInStep c base t → Holds c base (rest t))
      → Holds c base (after_removal r rest)
  after_removal-Holds (s, commits) rest h k = k s refl h
  after_removal-Holds (s, missing_receipt) rest h k = h.0
  after_removal-Holds (s, handle_fails) rest h k = h.0
  after_removal-Holds (s, commit_fails durable) rest h k = h

  when_replaced-Holds :
      (parent : Text) (reply : Reply) (s : Run) (rest : Run → Run × Status)
      → IsInStep c base s
      → Holds c base (rest s)
      → Holds c base (when_replaced parent reply s rest)
  when_replaced-Holds parent unavailable s rest h k = h.0
  when_replaced-Holds parent failed s rest h k = h.0
  when_replaced-Holds parent (block b) s rest h k = elim (Bool-cases (text_eq b.hash parent)) [
    | inl e ↦ rw e h
    | inr e ↦ rw e k
  ]

  unless_canonical-Holds :
      (w : World) (s : Run) (rest : Run → Run × Status)
      → IsInStep c base s
      → Holds c base (rest (tick 1 s))
      → Holds c base (unless_canonical w s rest)
  unfolding unless_canonical
  unless_canonical-Holds w s rest h k =
      elim (Bool-cases (s.progress.next_block == 0 || is_empty s.progress.canonical_parent)) [
        | inl e ↦ rw e h
        | inr e ↦ rw e (
            when_replaced-Holds s.progress.canonical_parent _ (tick 1 s) rest (tick-IsInStep 1 s h)
              k)
      ]

  same_reference_refl : (r : BlockReference) → same_reference r r ≡ true
  unfolding same_reference
  same_reference_refl r = ground (arith, text_eq_refl r.hash, text_eq_refl r.parent_hash)

  pub settled_as-progress :
      (d : Delivery) (next : BlockProgress) (s t : Run) (h : Handling)
      → settled_as d next s h ≡ (t, commits)
      → t.progress ≡ next
  settled_as-progress d next s t commits e = sym (ap (λ r. r.0.progress) e)
  settled_as-progress d next s t missing_receipt e = cc
  settled_as-progress d next s t handle_fails e = cc
  settled_as-progress d next s t (commit_fails true) e = cc
  settled_as-progress d next s t (commit_fails false) e = cc

  act-removed : (last : BlockReference) (rest : Chain) → act true last (last ∷ rest) ≡ some rest
  unfolding act
  act-removed last rest = rw (same_reference_refl last) refl

  -- The removal of the newest block of the journal.
  removed-Handled :
      (w : World) (last : BlockReference) (older : Chain) (s : Run)
      → s.progress.recent ≡ last ∷ older
      → IsInStep c base s
      → Handled c base (deliver w (removal last) (popped s.progress last older) s)
  unfolding deliver
  removed-Handled w last older s e (t, same) =
      let recent = sym (ap (λ (p : BlockProgress). p.recent) same) ∙ e in
      let (rest, whole, below) = popped-Describes c s.saved t.chain last older recent t.described in
      let moved : act true last t.chain ≡ some rest =
        ap (act true last) whole ∙ act-removed last rest in
      let described : Describes c (popped s.progress last older) rest =
        subst (λ p. Describes c (popped p last older) rest) (sym same) below in
      settled_as-Handled (removal last) (popped s.progress last older) s
        (w.handle s.moment (removal last)) (t, same) rest moved described

  deliver-recent :
      (w : World) (last : BlockReference) (older : Chain) (s t : Run)
      → deliver w (removal last) (popped s.progress last older) s ≡ (t, commits)
      → t.progress.recent ≡ older
  unfolding deliver
  deliver-recent w last older s t e =
      ap (λ (p : BlockProgress). p.recent)
        (settled_as-progress (removal last) (popped s.progress last older) s t
          (w.handle s.moment (removal last)) e)

  pub roll_back-Holds :
      (w : World) (recent : List BlockReference) (s : Run)
      → s.progress.recent ≡ recent
      → IsInStep c base s
      → Holds c base (roll_back w recent s)
  unfolding roll_back
  roll_back-Holds w [] s e h = unless_canonical-Holds w s _ h (tick-IsInStep 1 s h).0
  roll_back-Holds w (last ∷ older) s e h =
      let t = tick 1 s in
      let i = tick-IsInStep 1 s h in
      unless_canonical-Holds w s _ h
        (elim (Bool-cases (
          following last.number == t.progress.next_block
          && text_eq last.hash t.progress.canonical_parent)) [
            | inl same ↦ rw same (
                after_removal-Holds (deliver w (removal last) (popped t.progress last older) t)
                  (roll_back w older) (removed-Handled w last older t e i)
                  (λ u made. roll_back-Holds w older u (deliver-recent w last older t u made)))
            | inr other ↦ rw other i.0
          ])
