-- ===== src/Storage/Outbox/Claims.antt =====
-- What a claim leases: ready rows only, at most as many as it asks for, and to nobody else before
-- the lease runs out.
use monitord.Base.{
  ℕ, ◌+◌, ◌≤◌, ◌<◌, Text, ◌≡◌, inl, inr, Bool, true, false, List, [], ◌∷◌, All, All-take, All-and,
  All-intro, not, length, length-take-le, any, arith, ◌==◌, ◌&&◌, text_eq_refl, Bool-cases, ok,
}
use monitord.Base.Table.{update, count, select, All-imp, All-of_unique, All-of_none, All-update_to}
use monitord.Storage.Schema.{OutboxDelivery, Store}
use monitord.Storage.Outbox.{
  is_ready, is_row, is_among, chosen, sort_by_attempt, insert_by_attempt, lease, claim_owner,
  claim_outbox, ClaimedDelivery,
}
use monitord.Storage.Outbox.Leases.{Step, leased, stays, Rows, nil, row, Rows-refl}

-- The primary key of `outbox_deliveries`.
abbrev pub HasUniqueRows : List OutboxDelivery → Type 0
HasUniqueRows ds = (outbox destination : Text) → count (is_row outbox destination) ds ≤ 1

-- Some row of the table has the key of `r` and is ready.
abbrev pub IsReadyIn : ℕ → List OutboxDelivery → OutboxDelivery → Type 0
IsReadyIn now ds r = any (λ d. is_row r.outbox_id r.destination_id d && is_ready now d) ds ≡ true

insert-All {κ} :
    (P : OutboxDelivery → Type κ) (d : OutboxDelivery) (ds : List OutboxDelivery)
    → P d
    → All P ds
    → All P (insert_by_attempt d ds)
unfolding insert_by_attempt
insert-All P d [] h hs = (h, tt)
insert-All P d (e ∷ es) h hs = ground (arith, insert-All P d es h hs.1)

sort-All {κ} :
    (P : OutboxDelivery → Type κ) (ds : List OutboxDelivery) → All P ds → All P (sort_by_attempt ds)
unfolding sort_by_attempt
sort-All P [] h = tt
sort-All P (d ∷ ds) h = insert-All P d (sort_by_attempt ds) h.0 (sort-All P ds h.1)

ready-IsReadyIn :
    (now : ℕ) (ds : List OutboxDelivery) → All (IsReadyIn now ds) (select (is_ready now) ds)
unfolding select
ready-IsReadyIn now [] = tt
ready-IsReadyIn now (d ∷ ds) =
    let rest =
      All-imp (IsReadyIn now ds) (IsReadyIn now (d ∷ ds)) (select (is_ready now) ds)
        (λ r h. ground arith) (ready-IsReadyIn now ds) in
    elim (Bool-cases (is_ready now d)) [
      | inl hit ↦
          rw hit (ground (arith, text_eq_refl d.outbox_id, text_eq_refl d.destination_id), rest)
      | inr miss ↦ rw miss rest
    ]

pub chosen-IsReadyIn :
    (now limit : ℕ) (ds : List OutboxDelivery) → All (IsReadyIn now ds) (chosen now limit ds)
unfolding chosen
chosen-IsReadyIn now limit ds =
    All-take (IsReadyIn now ds) limit (sort_by_attempt (select (is_ready now) ds))
      (sort-All (IsReadyIn now ds) (select (is_ready now) ds) (ready-IsReadyIn now ds))

pub length-chosen-le :
    (now limit : ℕ) (ds : List OutboxDelivery) → length (chosen now limit ds) ≤ limit
unfolding chosen
length-chosen-le now limit ds = length-take-le limit (sort_by_attempt (select (is_ready now) ds))

-- A claim chooses at most `limit` rows, and each is a row of the table that is ready.
chosen_lem :
    (now limit : ℕ) (ds : List OutboxDelivery)
    → All (IsReadyIn now ds) (chosen now limit ds) × (length (chosen now limit ds) ≤ limit)
chosen_lem now limit ds = (chosen-IsReadyIn now limit ds, length-chosen-le now limit ds)

-- Under the primary key, a row that is among the chosen ones is ready itself.
among_ready :
    (now : ℕ) (ds rows : List OutboxDelivery)
    → HasUniqueRows ds
    → All (IsReadyIn now ds) rows
    → All (λ d. is_among rows d ≡ true → is_ready now d ≡ true) ds
among_ready now ds [] unique h =
    All-intro (λ d. is_among [] d ≡ true → is_ready now d ≡ true) ds (λ d e. absurd (ground arith))
among_ready now ds (r ∷ rs) unique h =
    let mine = λ (d : OutboxDelivery).
      is_row r.outbox_id r.destination_id d ≡ true → is_ready now d ≡ true in
    let others = λ (d : OutboxDelivery). is_among rs d ≡ true → is_ready now d ≡ true in
    All-imp (λ d. mine d × others d) (λ d. is_among (r ∷ rs) d ≡ true → is_ready now d ≡ true) ds
      (λ d both e. ground (arith, both.0, both.1))
      (All-and mine others ds
        (All-of_unique (is_row r.outbox_id r.destination_id) (is_ready now) ds
          (unique r.outbox_id r.destination_id) h.0)
        (among_ready now ds rs unique h.1))

Rows-updated :
    (p : OutboxDelivery → Bool) (f : OutboxDelivery → OutboxDelivery) (ds : List OutboxDelivery)
    → All (λ d. p d ≡ true → Step d (f d)) ds
    → Rows ds (update p f ds)
unfolding update
Rows-updated p f [] step = nil
Rows-updated p f (d ∷ ds) step = elim (Bool-cases (p d)) [
  | inl hit ↦ rw hit (row (step.0 hit) (Rows-updated p f ds step.1))
  | inr miss ↦ rw miss (row stays (Rows-updated p f ds step.1))
]

-- Where keys are unique, a claim that succeeds leaves every row as it was or leases it, and leases
-- only rows that a `Step` allows.
pub claim_outbox-Rows :
    (owner claim_id : Text) (now duration limit : ℕ) (s s' : Store) (out : List ClaimedDelivery)
    → HasUniqueRows s.outbox.deliveries
    → claim_outbox owner claim_id now duration limit s ≡ ok (out, s')
    → Rows s.outbox.deliveries s'.outbox.deliveries
unfolding claim_outbox
claim_outbox-Rows owner claim_id now duration limit s s' out unique h =
    let ds = s.outbox.deliveries in
    let rows = chosen now limit ds in
    let name = claim_owner owner claim_id in
    let expires = now + duration in
    elim (Bool-cases (count (is_among rows) ds == 0)) [
      | inl idle ↦ let same : s' ≡ s = ground arith in rw same (Rows-refl ds)
      | inr busy ↦
          let after : s'.outbox.deliveries ≡ update (is_among rows) (lease name expires) ds =
            ground arith in
          rw after (
            Rows-updated (is_among rows) (lease name expires) ds (
              All-imp (λ d. is_among rows d ≡ true → is_ready now d ≡ true) _ ds
                (λ d ready hit. leased name now expires (ready hit))
                (among_ready now ds rows unique (chosen-IsReadyIn now limit ds))))
    ]

-- Before the lease runs out no claim finds a leased row ready.
pub claim_outbox-exclusive :
    (owner claim_id : Text) (now duration limit later : ℕ) (s s' : Store)
    (out : List ClaimedDelivery)
    → claim_outbox owner claim_id now duration limit s ≡ ok (out, s')
    → later < now + duration
    → All
        (λ d. is_among (chosen now limit s.outbox.deliveries) d ≡ true → is_ready later d ≡ false)
        s'.outbox.deliveries
unfolding claim_outbox
claim_outbox-exclusive owner claim_id now duration limit later s s' out h before =
    let ds = s.outbox.deliveries in
    let rows = chosen now limit ds in
    let name = claim_owner owner claim_id in
    let expires = now + duration in
    elim (Bool-cases (count (is_among rows) ds == 0)) [
      | inl idle ↦
          let same : s' ≡ s = ground arith in
          rw same (
            All-imp (λ d. is_among rows d ≡ true → not (is_ready later d) ≡ true) _ ds
              (λ d no hit. ground (arith, no hit))
              (All-of_none (is_among rows) (λ d. not (is_ready later d)) ds (ground arith)))
      | inr busy ↦
          let after : s'.outbox.deliveries ≡ update (is_among rows) (lease name expires) ds =
            ground arith in
          rw after (
            All-update_to (λ _. Unit {0}) (λ d. is_among rows d ≡ true → is_ready later d ≡ false)
              (is_among rows) (lease name expires) ds (λ d hit _ e. ground arith)
              (λ d miss _ e. absurd (ground arith)) (All-intro (λ _. Unit {0}) ds (λ _. tt)))
    ]
