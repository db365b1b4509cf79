-- ===== src/Storage/Outbox/Histories.antt =====
-- Any history of the outbox: the calls of the delivery workers and of the operator, in any order.
use monitord.Base.{
  ℕ, Text, ◌≡◌, refl, ◌∙◌, ap, inl, inr, some, List, [], ◌∷◌, All, arith, Result, ok, err,
  Result-cases, Bool-cases,
}
use monitord.Base.Table.{find, count, select}
use monitord.Storage.Schema.{Error, OutboxDelivery, delivered, Store}
use monitord.Storage.Outbox.{
  is_row, claim_outbox, mark_delivered, defer_delivery, mark_delivery_failed, retry_dead_delivery,
}
use monitord.Storage.Outbox.Leases.{
  Step, Rows, nil, row, Rows-refl, IsWell, Step-IsWell, Step-delivered, mark_delivered-Rows,
  defer_delivery-Rows, mark_delivery_failed-Rows, retry_dead_delivery-Rows, stays, leased, sent,
  deferred, killed, failed, revived,
}
use monitord.Storage.Outbox.Claims.{HasUniqueRows, claim_outbox-Rows}

-- The arguments of one call.
pub data Call : Type 0 where
  claims : Text → Text → ℕ → ℕ → ℕ → Call
  delivers : Text → Text → Text → ℕ → Call
  defers : Text → Text → Text → ℕ → Call
  fails : Text → Text → Text → Text → ℕ → ℕ → ℕ → Call
  retries : Text → Text → ℕ → Call

-- A call that returns an error leaves the tables as they were.
abbrev pub after {ℓ} : {A : Type ℓ} → (A → Store) → Store → Result Error A → Store
after f s (ok a) = f a
after f s (err e) = s

unfoldable pub step : Store → Call → Store
step s (claims owner claim_id now duration limit) =
    after (λ r. r.1) s (claim_outbox owner claim_id now duration limit s)
step s (delivers outbox destination owner now) =
    after (λ t. t) s (mark_delivered outbox destination owner now s)
step s (defers outbox destination owner at) =
    after (λ t. t) s (defer_delivery outbox destination owner at s)
step s (fails outbox destination owner error now at max_attempts) =
    after (λ t. t) s (mark_delivery_failed outbox destination owner error now at max_attempts s)
step s (retries outbox destination now) =
    after (λ t. t) s (retry_dead_delivery outbox destination now s)

unfoldable pub run : Store → List Call → Store
run s [] = s
run s (c ∷ cs) = run (step s c) cs

step-Rows :
    (s : Store) (c : Call)
    → HasUniqueRows s.outbox.deliveries
    → Rows s.outbox.deliveries (step s c).outbox.deliveries
unfolding step
step-Rows s (claims owner claim_id now duration limit) u =
    elim (Result-cases (claim_outbox owner claim_id now duration limit s)) [
      | inl ((out, t), e) ↦ rw e (claim_outbox-Rows owner claim_id now duration limit s t out u e)
      | inr (x, e) ↦ rw e (Rows-refl s.outbox.deliveries)
    ]
step-Rows s (delivers outbox destination owner now) u =
    elim (Result-cases (mark_delivered outbox destination owner now s)) [
      | inl (t, e) ↦ rw e (mark_delivered-Rows outbox destination owner now s t e)
      | inr (x, e) ↦ rw e (Rows-refl s.outbox.deliveries)
    ]
step-Rows s (defers outbox destination owner at) u =
    elim (Result-cases (defer_delivery outbox destination owner at s)) [
      | inl (t, e) ↦ rw e (defer_delivery-Rows outbox destination owner at s t e)
      | inr (x, e) ↦ rw e (Rows-refl s.outbox.deliveries)
    ]
step-Rows s (fails outbox destination owner error now at max_attempts) u =
    elim (Result-cases
      (mark_delivery_failed outbox destination owner error now at max_attempts s)) [
        | inl (t, e) ↦
            rw e
              (mark_delivery_failed-Rows outbox destination owner error now at max_attempts s t e)
        | inr (x, e) ↦ rw e (Rows-refl s.outbox.deliveries)
      ]
step-Rows s (retries outbox destination now) u =
    elim (Result-cases (retry_dead_delivery outbox destination now s)) [
      | inl (t, e) ↦ rw e (retry_dead_delivery-Rows outbox destination now s t e)
      | inr (x, e) ↦ rw e (Rows-refl s.outbox.deliveries)
    ]

-- No operation changes the key of a row.
Step-is_row :
    (outbox destination : Text) {d e : OutboxDelivery}
    → Step d e
    → is_row outbox destination e ≡ is_row outbox destination d
Step-is_row outbox destination stays = refl
Step-is_row outbox destination (leased owner now expires h) = refl
Step-is_row outbox destination (sent now h) = refl
Step-is_row outbox destination (deferred at h) = refl
Step-is_row outbox destination (killed message now h) = refl
Step-is_row outbox destination (failed message at h) = refl
Step-is_row outbox destination (revived now h) = refl

count-Rows :
    (outbox destination : Text) {ds es : List OutboxDelivery}
    → Rows ds es
    → count (is_row outbox destination) es ≡ count (is_row outbox destination) ds
unfolding count select
count-Rows outbox destination nil = refl
count-Rows outbox destination (row st rest) =
    ground (arith, Step-is_row outbox destination st, count-Rows outbox destination rest)

All-Rows : {ds es : List OutboxDelivery} → Rows ds es → All IsWell ds → All IsWell es
All-Rows nil h = tt
All-Rows (row st rest) h = (Step-IsWell st h.0, All-Rows rest h.1)

find-Rows :
    (outbox destination : Text) {ds es : List OutboxDelivery} (d : OutboxDelivery)
    → Rows ds es
    → find (is_row outbox destination) ds ≡ some d
    → d.status ≡ delivered
    → find (is_row outbox destination) es ≡ some d
unfolding find
find-Rows outbox destination d nil h done = h
find-Rows outbox destination d (row {d = x} {e = y} st rest) h done =
    elim (Bool-cases (is_row outbox destination x)) [
      | inl mine ↦
          let same : x ≡ d = ground arith in
          let final = Step-delivered st (ap (λ (r : OutboxDelivery). r.status) same ∙ done) in
          ground arith
      | inr other ↦ ground (
        arith,
        Step-is_row outbox destination st,
        find-Rows outbox destination d rest (ground arith) done,
      )
    ]

-- The outbox is well-formed: keys are unique and every row is in one of its four states.
pub record IsOutbox (s : Store) : Type 0 where
  pub keys : HasUniqueRows s.outbox.deliveries
  pub rows : All IsWell s.outbox.deliveries

step-IsOutbox : (s : Store) (c : Call) → IsOutbox s → IsOutbox (step s c)
step-IsOutbox s c v =
    let moved = step-Rows s c v.keys in
    record {
      keys = λ outbox destination.
          rw (count-Rows outbox destination moved) (v.keys outbox destination);
      rows = All-Rows moved v.rows;
    }

-- Every history of claims, settlements and retries, successful or refused, keeps `IsOutbox`: keys are
-- unique, a lease is held exactly while its row is being sent, and deliveries and deaths are dated.
pub run-IsOutbox : (s : Store) (cs : List Call) → IsOutbox s → IsOutbox (run s cs)
unfolding run
run-IsOutbox s [] v = v
run-IsOutbox s (c ∷ cs) v = run-IsOutbox (step s c) cs (step-IsOutbox s c v)

-- From a state where `IsOutbox` holds, a delivery that has been marked delivered stays as it is in
-- any later history.
pub run-delivered :
    (s : Store) (cs : List Call) (outbox destination : Text) (d : OutboxDelivery)
    → IsOutbox s
    → find (is_row outbox destination) s.outbox.deliveries ≡ some d
    → d.status ≡ delivered
    → find (is_row outbox destination) (run s cs).outbox.deliveries ≡ some d
unfolding run
run-delivered s [] outbox destination d v h done = h
run-delivered s (c ∷ cs) outbox destination d v h done =
    run-delivered (step s c) cs outbox destination d (step-IsOutbox s c v)
      (find-Rows outbox destination d (step-Rows s c v.keys) h done) done
