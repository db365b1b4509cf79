-- ===== src/Storage/Transactions/Atomicity.antt =====
-- All or nothing, whatever becomes of the COMMIT, and at most once over any number of attempts.
use monitord.Base.{
  ℕ, ◌≡◌, refl, ◌⊎◌, inl, inr, true, false, none, some, List, [], ◌∷◌, arith, ok, err, Bool-cases,
  Result-cases,
}
use monitord.Storage.Schema.{Error, commit_failed, Platform, Ack, Store}
use monitord.Storage.Frames.{Frame, validate_frame}
use monitord.Storage.Transactions.{
  CommitFate, commits, fails, lookup_transaction, apply_new, apply_transaction,
}
use monitord.Storage.Transactions.Replay.{
  lookup-of_ledger, apply_transaction-answered, apply_transaction-replay,
}

module _ (p : Platform) (f : Frame) (now : ℕ) (s : Store) where
  -- A COMMIT that reports an error after it became durable is answered from the ledger as if it had
  -- succeeded.
  pub apply_transaction-lost_ack :
      (s' : Store) (ack : Ack)
      → apply_transaction p f commits now s ≡ (s', ok ack)
      → apply_transaction p f (fails true true) now s ≡ (s', ok ack)
  unfolding apply_transaction
  apply_transaction-lost_ack s' ack h =
      let (v, row, found, hash, payload) = apply_transaction-answered p f now s s' ack h in
      ground (arith, lookup-of_ledger p f s' row)

  -- Whatever becomes of the COMMIT, the call either writes nothing, or succeeds in writing exactly
  -- what it writes when the COMMIT succeeds.
  apply_transaction-atomic :
      (fate : CommitFate)
      → ((apply_transaction p f fate now s).0 ≡ s)
        ⊎ ((ack : Ack) × (apply_transaction p f commits now s
              ≡ ((apply_transaction p f fate now s).0, ok ack)))
  unfolding apply_transaction
  apply_transaction-atomic fate = elim (Bool-cases (validate_frame p f)) [
    | inl v ↦ elim (Result-cases (lookup_transaction p f s)) [
      | inl (none, e) ↦ elim (Result-cases (apply_new p f now s)) [
        | inl ((ack, s'), a) ↦ written fate v e ack s' a
        | inr (x, a) ↦ inl (ground arith)
      ]
      | inl (some ack, e) ↦ inl (ground arith)
      | inr (x, e) ↦ inl (ground arith)
    ]
    | inr v ↦ inl (ground arith)
  ]
    where
      written :
          (fate : CommitFate)
          → validate_frame p f ≡ true
          → lookup_transaction p f s ≡ ok none
          → (ack : Ack) (s' : Store) → apply_new p f now s ≡ ok (ack, s')
          → ((apply_transaction p f fate now s).0 ≡ s)
            ⊎ ((ack : Ack) × (apply_transaction p f commits now s
                  ≡ ((apply_transaction p f fate now s).0, ok ack)))
      written commits v e ack s' a = inr (ack, ground arith)
      written (fails true readable) v e ack s' a = inr (ack, ground arith)
      written (fails false readable) v e ack s' a = inl (ground arith)

  -- Every error but that of a COMMIT leaves the tables as they were.
  pub apply_transaction-error :
      (fate : CommitFate) (e : Error)
      → (apply_transaction p f fate now s).1 ≡ err e
      → ((apply_transaction p f fate now s).0 ≡ s) ⊎ (e ≡ commit_failed)
  unfolding apply_transaction
  apply_transaction-error commits e h = ground arith
  apply_transaction-error (fails true true) e h = ground arith
  apply_transaction-error (fails true false) e h = ground arith
  apply_transaction-error (fails false readable) e h = ground arith

module _ (p : Platform) (f : Frame) where
  -- A worker that sends one frame again and again, with the outcome of each COMMIT and its time.
  pub attempts : List (CommitFate × ℕ) → Store → Store
  attempts [] s = s
  attempts ((fate, now) ∷ rest) s = attempts rest (apply_transaction p f fate now s).0

  attempts-after :
      (rest : List (CommitFate × ℕ)) (now : ℕ) (s s' : Store) (ack : Ack)
      → apply_transaction p f commits now s ≡ (s', ok ack)
      → attempts rest s' ≡ s'
  unfolding attempts
  attempts-after [] now s s' ack h = refl
  attempts-after ((fate, later) ∷ rest) now s s' ack h =
      let again = apply_transaction-replay p f fate now later s s' s' ack h refl in
      ground (arith, attempts-after rest now s s' ack h)

  -- Any number of attempts writes the frame at most once: the tables are as before, or as after
  -- one successful call.
  pub attempts_once :
      (fates : List (CommitFate × ℕ)) (s : Store)
      → (attempts fates s ≡ s)
        ⊎ ((now : ℕ) × (ack : Ack) × (apply_transaction p f commits now s
              ≡ (attempts fates s, ok ack)))
  unfolding attempts
  attempts_once [] s = inl refl
  attempts_once ((fate, now) ∷ rest) s = elim (apply_transaction-atomic p f now s fate) [
    | inl same ↦ rw same (attempts_once rest s)
    | inr (ack, h) ↦ inr (now, ack, rw (attempts-after rest now s _ ack h) h)
  ]

-- Every call leaves the tables as they were or as a new application of the frame makes them.
pub apply_transaction-store :
    (p : Platform) (f : Frame) (now : ℕ) (s : Store) (fate : CommitFate)
    → ((apply_transaction p f fate now s).0 ≡ s)
      ⊎ ((ack : Ack) × (apply_new p f now s ≡ ok (ack, (apply_transaction p f fate now s).0)))
unfolding apply_transaction
apply_transaction-store p f now s fate = elim (Bool-cases (validate_frame p f)) [
  | inl v ↦ elim (Result-cases (lookup_transaction p f s)) [
    | inl (none, e) ↦ elim (Result-cases (apply_new p f now s)) [
      | inl ((ack, s'), a) ↦ outcome fate v e ack s' a
      | inr (x, a) ↦ inl (ground arith)
    ]
    | inl (some ack, e) ↦ inl (ground arith)
    | inr (x, e) ↦ inl (ground arith)
  ]
  | inr v ↦ inl (ground arith)
]
  where
    outcome :
        (fate : CommitFate)
        → validate_frame p f ≡ true
        → lookup_transaction p f s ≡ ok none
        → (ack : Ack) (s' : Store) → apply_new p f now s ≡ ok (ack, s')
        → ((apply_transaction p f fate now s).0 ≡ s)
          ⊎ ((ack : Ack) × (apply_new p f now s ≡ ok (ack, (apply_transaction p f fate now s).0)))
    outcome commits v e ack s' a = inr (ack, ground arith)
    outcome (fails true readable) v e ack s' a = inr (ack, ground arith)
    outcome (fails false readable) v e ack s' a = inl (ground arith)
