-- ===== src/Storage/Outbox/Leases.antt =====
-- The states of a delivery: what each operation may do to a row, and what stays.
use monitord.Base.{
  ℕ, ◌+◌, ◌≤◌, ◌<◌, Text, ◌≡◌, refl, ◌⊎◌, inl, inr, Bool, true, none, some, List, [], ◌∷◌, arith,
  is_some, leb, ◌&&◌, Bool-cases, Option-cases, ok, err,
}
use monitord.Utf8.{bounded_text}
use monitord.Storage.Health.{max_stored_error_bytes}
use monitord.Base.Table.{find, update, count, find_sound, find_key, find-update}
use monitord.Storage.Schema.{lease_lost, OutboxDelivery, pending, sending, delivered, dead, Store}
use monitord.Storage.Outbox.{
  is_sending, is_delivered, is_dead, is_ready, is_row, is_leased, owned_by, lease, finish_delivery,
  set_delivered, set_deferred, set_dead, set_retry, mark_delivered, defer_delivery,
  mark_delivery_failed, revive, retry_dead_delivery,
}

-- One row under one operation.
pub data Step (d : OutboxDelivery) : OutboxDelivery → Type 0 where
  stays : Step d d
  leased : (owner : Text) (now expires : ℕ) → is_ready now d ≡ true → Step d (lease owner expires d)
  sent : (now : ℕ) → d.status ≡ sending → Step d (set_delivered now d)
  deferred : (at : ℕ) → d.status ≡ sending → Step d (set_deferred at d)
  killed : (message : Text) (now : ℕ) → d.status ≡ sending → Step d (set_dead message now d)
  failed : (message : Text) (at : ℕ) → d.status ≡ sending → Step d (set_retry message at d)
  revived : (now : ℕ) → d.status ≡ dead → Step d (revive now d)

-- The rows of a table, one by one.
pub data Rows : List OutboxDelivery → List OutboxDelivery → Type 0 where
  nil : Rows [] []
  row :
      {d e : OutboxDelivery} {ds es : List OutboxDelivery}
      → Step d e
      → Rows ds es
      → Rows (d ∷ ds) (e ∷ es)

pub Rows-refl : (ds : List OutboxDelivery) → Rows ds ds
Rows-refl [] = nil
Rows-refl (d ∷ ds) = row stays (Rows-refl ds)

pub Rows-update :
    (p : OutboxDelivery → Bool) (f : OutboxDelivery → OutboxDelivery) (ds : List OutboxDelivery)
    → ((d : OutboxDelivery) → p d ≡ true → Step d (f d))
    → Rows ds (update p f ds)
unfolding update
Rows-update p f [] step = nil
Rows-update p f (d ∷ ds) step = elim (Bool-cases (p d)) [
  | inl hit ↦ rw hit (row (step d hit) (Rows-update p f ds step))
  | inr miss ↦ rw miss (row stays (Rows-update p f ds step))
]

-- A lease is held exactly while the row is being sent, and the end of a delivery is dated.
pub record IsWell (d : OutboxDelivery) : Type 0 where
  pub owner : is_some d.lease_owner ≡ is_sending d.status
  pub expiry : is_some d.lease_expires_at ≡ is_sending d.status
  pub delivery : is_some d.delivered_at ≡ is_delivered d.status
  pub death : is_some d.dead_at ≡ is_dead d.status

pub Step-IsWell : {d e : OutboxDelivery} → Step d e → IsWell d → IsWell e
Step-IsWell stays w = w
Step-IsWell (leased owner now expires h) w = ground arith
Step-IsWell (sent now h) w = ground arith
Step-IsWell (deferred at h) w = ground arith
Step-IsWell (killed message now h) w = ground arith
Step-IsWell (failed message at h) w = ground arith
Step-IsWell (revived now h) w = ground arith

-- A delivered row is final.
pub Step-delivered : {d e : OutboxDelivery} → Step d e → d.status ≡ delivered → e ≡ d
Step-delivered stays h = refl
Step-delivered (leased owner now expires r) h = absurd (ground arith)
Step-delivered (sent now s) h = absurd (ground arith)
Step-delivered (deferred at s) h = absurd (ground arith)
Step-delivered (killed message now s) h = absurd (ground arith)
Step-delivered (failed message at s) h = absurd (ground arith)
Step-delivered (revived now s) h = absurd (ground arith)

leased_status :
    (outbox destination owner : Text) (d : OutboxDelivery)
    → is_leased outbox destination owner d ≡ true
    → d.status ≡ sending
leased_status outbox destination owner d h = ground arith

finish_delivery-Rows :
    (outbox destination owner : Text) (set : OutboxDelivery → OutboxDelivery) (s s' : Store)
    → ((d : OutboxDelivery) → d.status ≡ sending → Step d (set d))
    → finish_delivery outbox destination owner set s ≡ ok s'
    → Rows s.outbox.deliveries s'.outbox.deliveries
unfolding finish_delivery
finish_delivery-Rows outbox destination owner set s s' step h =
    let ds : s'.outbox.deliveries
        ≡ update (is_leased outbox destination owner) set s.outbox.deliveries =
      ground arith in
    rw ds (
      Rows-update (is_leased outbox destination owner) set s.outbox.deliveries
        (λ d hit. step d (leased_status outbox destination owner d hit)))

-- An owner without the lease settles nothing.
pub finish_delivery-lease_lost :
    (outbox destination owner : Text) (set : OutboxDelivery → OutboxDelivery) (s : Store)
    → count (is_leased outbox destination owner) s.outbox.deliveries ≡ 0
    → finish_delivery outbox destination owner set s ≡ err lease_lost
unfolding finish_delivery
finish_delivery-lease_lost outbox destination owner set s h = ground arith

pub mark_delivered-Rows :
    (outbox destination owner : Text) (now : ℕ) (s s' : Store)
    → mark_delivered outbox destination owner now s ≡ ok s'
    → Rows s.outbox.deliveries s'.outbox.deliveries
unfolding mark_delivered
mark_delivered-Rows outbox destination owner now s s' h =
    finish_delivery-Rows outbox destination owner (set_delivered now) s s' (λ d e. sent now e) h

pub defer_delivery-Rows :
    (outbox destination owner : Text) (at : ℕ) (s s' : Store)
    → defer_delivery outbox destination owner at s ≡ ok s'
    → Rows s.outbox.deliveries s'.outbox.deliveries
unfolding defer_delivery
defer_delivery-Rows outbox destination owner at s s' h =
    finish_delivery-Rows outbox destination owner (set_deferred at) s s' (λ d e. deferred at e) h

pub retry_dead_delivery-Rows :
    (outbox destination : Text) (now : ℕ) (s s' : Store)
    → retry_dead_delivery outbox destination now s ≡ ok s'
    → Rows s.outbox.deliveries s'.outbox.deliveries
unfolding retry_dead_delivery
retry_dead_delivery-Rows outbox destination now s s' h =
    let target = λ (d : OutboxDelivery). is_row outbox destination d && is_dead d.status in
    let ds : s'.outbox.deliveries ≡ update target (revive now) s.outbox.deliveries = ground arith in
    rw ds
      (Rows-update target (revive now) s.outbox.deliveries (λ d hit. revived now (ground arith)))

pub mark_delivery_failed-Rows :
    (outbox destination owner error : Text) (now at max_attempts : ℕ) (s s' : Store)
    → mark_delivery_failed outbox destination owner error now at max_attempts s ≡ ok s'
    → Rows s.outbox.deliveries s'.outbox.deliveries
unfolding mark_delivery_failed
mark_delivery_failed-Rows outbox destination owner error now at max_attempts s s' h =
    let message = bounded_text error max_stored_error_bytes in
    elim (Option-cases (find (is_leased outbox destination owner) s.outbox.deliveries)) [
      | inl e ↦ absurd (ground arith)
      | inr (d, e) ↦ elim (Bool-cases (leb max_attempts (d.attempt_count + 1))) [
        | inl last ↦
            finish_delivery-Rows outbox destination owner (set_dead message now) s s'
              (λ d e. killed message now e) (ground arith)
        | inr more ↦
            finish_delivery-Rows outbox destination owner (set_retry message at) s s'
              (λ d e. failed message at e) (ground arith)
      ]
    ]

-- A failed attempt counts as one more; at the limit of attempts the row is dead, and below it the
-- row is pending until the given time.
pub mark_delivery_failed-attempts :
    (outbox destination owner error : Text) (now at max_attempts : ℕ) (s s' : Store)
    (d : OutboxDelivery)
    → count (is_row outbox destination) s.outbox.deliveries ≤ 1
    → find (is_row outbox destination) s.outbox.deliveries ≡ some d
    → mark_delivery_failed outbox destination owner error now at max_attempts s ≡ ok s'
    → (e : OutboxDelivery) × (find (is_row outbox destination) s'.outbox.deliveries ≡ some e)
      × (e.attempt_count ≡ d.attempt_count + 1)
      × (e.lease_owner ≡ none)
      × (((max_attempts ≤ d.attempt_count + 1) × (e.status ≡ dead) × (e.dead_at ≡ some now))
          ⊎ ((d.attempt_count + 1 < max_attempts)
              × (e.status ≡ pending)
              × (e.next_attempt_at ≡ at)))
unfolding mark_delivery_failed
mark_delivery_failed-attempts outbox destination owner error now at max_attempts s s' d unique found
      h =
    let message = bounded_text error max_stored_error_bytes in
    let target = is_leased outbox destination owner in
    let key = is_row outbox destination in
    let mine = find_sound key s.outbox.deliveries d found in
    elim (Option-cases (find target s.outbox.deliveries)) [
      | inl e ↦ absurd (ground arith)
      | inr (x, e) ↦
          let there =
            find_key key (λ d. is_sending d.status && owned_by d.lease_owner owner)
              s.outbox.deliveries x unique e in
          let hit = find_sound target s.outbox.deliveries x e in
          let same : x ≡ d = ground arith in
          elim (Bool-cases (leb max_attempts (d.attempt_count + 1))) [
            | inl last ↦ (
              set_dead message now d,
              ground (
                arith,
                find-update target key (set_dead message now) s.outbox.deliveries (λ _. refl),
              ),
              refl,
              refl,
              inl (ground arith, refl, refl),
            )
            | inr more ↦ (
              set_retry message at d,
              ground (
                arith,
                find-update target key (set_retry message at) s.outbox.deliveries (λ _. refl),
              ),
              refl,
              refl,
              inr (ground arith, refl, refl),
            )
          ]
    ]
