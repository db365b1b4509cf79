-- ===== src/Storage/Retention/Replayed.antt =====
-- internal/storage/retention.go: the sweeps and the answers of the ledger.
use monitord.Base.{
  ℕ, eq_of_text_eq, ◌≡◌, refl, sym, ap, ◌∙◌, true, false, not, ◌&&◌, List, [], ◌∷◌, any, All, arith,
  ok,
}
use monitord.Base.Table.{find}
use monitord.Storage.Schema.{
  Platform, Ack, Store, OutboxEvent, Transaction, Generation, is_generation, is_transaction,
}
use monitord.Storage.Frames.{Frame}
use monitord.Storage.Transactions.{CommitFate, commits, apply_transaction}
use monitord.Storage.Transactions.Replay.{ledger_of, apply_transaction-replay}
use monitord.Storage.Retention.{
  Sweep, outbox_sweep, transactions_sweep, Cursor, is_old, is_prunable_transaction,
}
use monitord.Storage.Retention.Prune.{prune}
use monitord.Storage.Retention.Kept.{Keeps, prune-Keeps, kept_rows}
use monitord.Base.Deletions.{find-select_kept}

-- The arguments of one slice.
pub record Slice : Type 0 where
  pub sweep : Sweep
  pub now : ℕ
  pub budget : ℕ
  pub before : Cursor
  pub snapshot : Store
  pub current : Cursor

module _ (event_row : OutboxEvent → ℕ) (generation_row : Generation → ℕ) where
  abbrev pub after_slice : Slice → Store → Store
  after_slice x s =
      (prune event_row generation_row x.sweep x.now x.budget x.before x.snapshot x.current s).0

  pub sweeps : List Slice → Store → Store
  sweeps [] s = s
  sweeps (x ∷ xs) s = sweeps xs (after_slice x s)

  -- The generation of the frame was not retired more than a week before the slice.
  abbrev pub IsSpared : Frame → List Generation → Slice → Type 0
  IsSpared f gs x =
      any (λ g. is_generation f.deployment_id f.generation g && is_old x.now g) gs ≡ false

  spared_row :
      (f : Frame) (x : Slice) (s : Store) (t : Transaction)
      → IsSpared f s.generations x
      → is_transaction f.deployment_id f.generation f.sequence t ≡ true
      → not (is_prunable_transaction x.now s t) ≡ true
  unfolding is_prunable_transaction
  spared_row f x s t spared key =
      let id : t.deployment_id ≡ f.deployment_id =
        eq_of_text_eq t.deployment_id f.deployment_id (ground arith) in
      let generation : t.generation ≡ f.generation = ground arith in
      rw (id, generation, spared) refl

  Keeps-generations :
      (w : Sweep) (now : ℕ) (s t : Store) → Keeps w now s t → t.generations ≡ s.generations
  Keeps-generations outbox_sweep now s t k = ap (λ (r : Store). r.generations) k.others
  Keeps-generations transactions_sweep now s t k = ap (λ (r : Store). r.generations) k.others

  Keeps-ledger_of :
      (w : Sweep) (f : Frame) (x : Slice) (s t : Store)
      → IsSpared f s.generations x
      → Keeps w x.now s t
      → ledger_of f t ≡ ledger_of f s
  Keeps-ledger_of outbox_sweep f x s t spared k = ap (λ (r : Store). ledger_of f r) k.others
  Keeps-ledger_of transactions_sweep f x s t spared k =
      let key = is_transaction f.deployment_id f.generation f.sequence in
      let kept = λ (r : Transaction). not (is_prunable_transaction x.now s r) in
      let spares = λ (r : Transaction) (e : key r ≡ true). spared_row f x s r spared e in
      sym (find-select_kept key kept t.transactions spares)
      ∙ ap (find key) (kept_rows x.now s t k)
      ∙ find-select_kept key kept s.transactions spares

  sweeps-ledger_of :
      (f : Frame) (xs : List Slice) (s : Store)
      → All (IsSpared f s.generations) xs
      → ledger_of f (sweeps xs s) ≡ ledger_of f s
  unfolding sweeps
  sweeps-ledger_of f [] s spared = refl
  sweeps-ledger_of f (x ∷ xs) s spared =
      let t = after_slice x s in
      let k =
        prune-Keeps event_row generation_row x.sweep x.now x.budget x.before x.snapshot x.current
          s in
      let rest : All (IsSpared f t.generations) xs =
        rw (Keeps-generations x.sweep x.now s t k) spared.1 in
      sweeps-ledger_of f xs t rest ∙ Keeps-ledger_of x.sweep f x s t spared.0 k

  -- A frame that was acknowledged is answered with the same acknowledgement, and nothing is written,
  -- after any slices of the two sweeps, as long as its generation was not retired more than a week
  -- before one of them.
  pub sweeps-replay :
      (p : Platform) (f : Frame) (fate : CommitFate) (now later : ℕ) (xs : List Slice)
      (s s' : Store) (ack : Ack)
      → apply_transaction p f commits now s ≡ (s', ok ack)
      → All (IsSpared f s'.generations) xs
      → apply_transaction p f fate later (sweeps xs s') ≡ (sweeps xs s', ok ack)
  sweeps-replay p f fate now later xs s s' ack h spared =
      apply_transaction-replay p f fate now later s s' (sweeps xs s') ack h
        (sweeps-ledger_of f xs s' spared)
