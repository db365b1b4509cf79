-- ===== src/Storage/Invariant/Beside.antt =====
-- internal/storage/health.go, internal/storage/outbox.go and internal/storage/retention.go: the calls
-- that grant no generation and leave the rows of deployments alone.
use monitord.Base.{
  ℕ, Text, ◌≡◌, refl, sym, ap, ◌∙◌, inl, inr, Bool, true, false, Option, some, arith, ok, err,
  Result, Option-cases, not, ◌&&◌, is_some, coalesce, chain_parts, or_fail, guard, ◌||◌, none, ltb,
  ◌==◌, ◌+◌, leb,
}
use monitord.Base.Table.{count, update, update-never, All-update, find}
use monitord.Storage.Schema.{
  Error, has_id, is_active, is_health, generation_fenced, concurrent_mutation, invalid,
  OutboxDelivery, Platform, Store, Generation, OutboxEvent, RunStatus, success, failure, deferred,
  Health, Deployment, is_generation,
}
use monitord.Storage.Frames.{is_blank}
use monitord.Utf8.{bounded_text}
use monitord.Storage.Generations.{or_reason}
use monitord.Storage.Health.{
  fail_operation, is_health_of, is_starting, recovered, became_unhealthy, max_stored_error_bytes,
  monitored, finish_time, RunOutcome, Transition, update_health, enqueue_notice, notify_if,
  settle_run, record_run, mark_stable, record_operational_failure, mark_ready, mark_stopped,
}
use monitord.Storage.Outbox.{
  claim_outbox, finish_delivery, mark_delivered, defer_delivery, mark_delivery_failed,
  retry_dead_delivery,
}
use monitord.Storage.Outbox.Histories as Outbox
use monitord.Storage.Retention.{outbox_sweep, transactions_sweep, Sweep}
use monitord.Storage.Retention.Kept.{Keeps, prune-Keeps}
use monitord.Storage.Retention.Replayed.{Slice, after_slice}
use monitord.Storage.Invariant.{Inv, IsFenced}

-- The deployments are the same, and the generations keep their keys and are not revived.
pub record IsBeside (s t : Store) : Type 0 where
  pub which : Generation → Bool
  pub change : Generation → Generation
  pub deployments : t.deployments ≡ s.deployments
  pub generations : t.generations ≡ update which change s.generations
  pub owner : (g : Generation) → (change g).deployment_id ≡ g.deployment_id
  pub number : (g : Generation) → (change g).generation ≡ g.generation
  pub alive : (g : Generation) → (change g).is_live ≡ true → g.is_live ≡ true

-- Both tables are the same.
abbrev pub IsSame : Store → Store → Type 0
IsSame s t = (t.deployments ≡ s.deployments) × (t.generations ≡ s.generations)

pub IsSame-IsBeside : (s t : Store) → IsSame s t → IsBeside s t
IsSame-IsBeside s t (ds, gs) = record {
  which = λ _. false;
  change = λ g. g;
  deployments = ds;
  generations = gs ∙ sym (update-never (λ g. g) s.generations);
  owner = λ g. refl;
  number = λ g. refl;
  alive = λ g e. e;
}

pub IsBeside-Inv : (s t : Store) → IsBeside s t → Inv s → Inv t
IsBeside-Inv s t b v = record {
  fenced =
      rw (b.deployments, b.generations)
        (All-update (IsFenced s.deployments) b.which b.change s.generations
          (λ g hit fenced live.
            let (d, found, here) = fenced (b.alive g live) in
            (d, rw (b.owner g) found, here ∙ sym (b.number g)))
          v.fenced);
  numbered =
      rw b.generations
        (All-update _ b.which b.change s.generations (λ g _ e. rw (b.number g) e) v.numbered);
  unique = rw b.deployments v.unique;
  quiet = rw b.deployments v.quiet;
}

pub IsSame-Inv : (s t : Store) → IsSame s t → Inv s → Inv t
IsSame-Inv s t same v = IsBeside-Inv s t (IsSame-IsBeside s t same) v

pub mark_ready-IsBeside :
    (id : Text) (n now : ℕ) (s t : Store) → mark_ready id n now s ≡ ok t → IsBeside s t
unfolding mark_ready
mark_ready-IsBeside id n now s t h = record {
  which = λ g. is_generation id n g && (g.is_live && not (is_some g.ready_at));
  change = λ g. record g { ready_at = some now };
  deployments = ground arith;
  generations = ground arith;
  owner = λ g. refl;
  number = λ g. refl;
  alive = λ g e. e;
}

pub mark_stopped-IsBeside :
    (id : Text) (n : ℕ) (reason message : Text) (now : ℕ) (s t : Store)
    → mark_stopped id n reason message now s ≡ ok t
    → IsBeside s t
unfolding mark_stopped
mark_stopped-IsBeside id n reason message now s t h = record {
  which = is_generation id n;
  change = λ g. record g {
    is_live = false;
    stopped_at = coalesce g.stopped_at now;
    stop_error = or_reason g.stop_error (bounded_text message max_stored_error_bytes);
    stop_reason = or_reason g.stop_reason reason;
    retired_at = coalesce g.retired_at now;
  };
  deployments = ground arith;
  generations = ground arith;
  owner = λ g. refl;
  number = λ g. refl;
  alive = λ g e. absurd (ground arith);
}

notify_if-IsSame :
    (b : Bool) (p : Platform) (id name : Text) (n : ℕ) (x : Transition) (failures at : ℕ)
    (outbox_id : Text) (s t : Store) (out : Option Transition)
    → notify_if b p id name n x failures at outbox_id s ≡ ok (out, t)
    → IsSame s t
unfolding notify_if enqueue_notice
notify_if-IsSame false p id name n x failures at outbox_id s t out h = (ground arith, ground arith)
notify_if-IsSame true p id name n x failures at outbox_id s t out h = (ground arith, ground arith)

update_health-IsSame :
    (id : Text) (n : ℕ) (f : Health → Health) (s t : Store)
    → update_health id n f s ≡ ok t
    → IsSame s t
unfolding update_health
update_health-IsSame id n f s t h = (ground arith, ground arith)

IsSame-trans : (s t u : Store) → IsSame s t → IsSame t u → IsSame s u
IsSame-trans s t u (a, b) (c, d) = (c ∙ a, d ∙ b)

settle_run-IsSame :
    (p : Platform) (o : RunOutcome) (error outbox_id : Text) (now : ℕ) (row : Deployment × Health)
    (status : RunStatus) (s t : Store) (out : Option Transition)
    → settle_run p o error outbox_id now row status s ≡ ok (out, t)
    → IsSame s t
unfolding settle_run
settle_run-IsSame p o error outbox_id now (d, h) deferred s t out e =
    let (u, first, rest) = chain_parts (update_health _ _ _ s) _ e in
    let kept = update_health-IsSame _ _ _ s u first in (ground (arith, kept), ground (arith, kept))
settle_run-IsSame p o error outbox_id now (d, h) success s t out e =
    let (u, first, rest) = chain_parts (update_health _ _ _ s) _ e in
    IsSame-trans s u t (update_health-IsSame _ _ _ s u first)
      (notify_if-IsSame _ p _ _ _ _ _ _ _ u t out rest)
settle_run-IsSame p o error outbox_id now (d, h) failure s t out e =
    let (u, first, rest) = chain_parts (update_health _ _ _ s) _ e in
    IsSame-trans s u t (update_health-IsSame _ _ _ s u first)
      (notify_if-IsSame _ p _ _ _ _ _ _ _ u t out rest)

pub record_run-IsSame :
    (p : Platform) (o : RunOutcome) (outbox_id : Text) (now : ℕ) (s t : Store)
    (out : Option Transition)
    → record_run p o outbox_id now s ≡ ok (out, t)
    → IsSame s t
unfolding record_run
record_run-IsSame p o outbox_id now s t out h = elim (Option-cases (monitored o.deployment_id s)) [
  | inl missing ↦ absurd (ground arith)
  | inr (row, found) ↦
      settle_run-IsSame p o (bounded_text o.error max_stored_error_bytes) outbox_id
        (finish_time o now) row o.status s t out (ground arith)
]

pub mark_stable-IsSame :
    (p : Platform) (id : Text) (n : ℕ) (outbox_id : Text) (now : ℕ) (s t : Store)
    (out : Option Transition)
    → mark_stable p id n outbox_id now s ≡ ok (out, t)
    → IsSame s t
unfolding mark_stable
mark_stable-IsSame p id n outbox_id now s t out h =
    let target = λ (x : Health). is_health_of id n x && is_starting x.status in
    let (d, _, h₁) =
      chain_parts
        (or_fail
          (find (λ d. has_id id d && (is_active d.status && d.active_generation == n))
            s.deployments)
          generation_fenced)
        _ h in
    let (x, _, h₂) = chain_parts (or_fail (find target s.health) generation_fenced) _ h₁ in
    let (_, _, h₃) = chain_parts (guard (count target s.health == 1) concurrent_mutation) _ h₂ in
    notify_if-IsSame x.unhealthy_notified p id d.name n recovered 0 now outbox_id _ t out h₃

pub record_operational_failure-IsSame :
    (p : Platform) (id : Text) (generation : Option ℕ) (message outbox_id : Text) (now : ℕ)
    (s t : Store) (out : Option Transition)
    → record_operational_failure p id generation message outbox_id now s ≡ ok (out, t)
    → IsSame s t
unfolding record_operational_failure
record_operational_failure-IsSame p id generation message outbox_id now s t out h =
    let cause = bounded_text message max_stored_error_bytes in
    let (_, _, h₁) =
      chain_parts
        (guard
          (not (
            is_blank id
            || (is_blank cause || (elim generation [ none ↦ false | some n ↦ ltb n 1 ]))))
          invalid)
        _ h in
    let (row, _, h₂) = chain_parts (or_fail (monitored id s) generation_fenced) _ h₁ in
    let (_, _, h₃) =
      chain_parts
        (guard (elim generation [ none ↦ true | some n ↦ row.0.active_generation == n ])
          generation_fenced)
        _ h₂ in
    let (_, _, h₄) =
      chain_parts (guard (count (is_health id) s.health == 1) concurrent_mutation) _ h₃ in
    let n : ℕ = elim generation [ none ↦ 0 | some _ ↦ row.0.active_generation ] in
    let failures = row.1.consecutive_failures + 1 in
    notify_if-IsSame (not row.1.unhealthy_notified && leb row.0.failure_threshold failures) p id
      row.0.name n became_unhealthy failures now outbox_id
      (record s {
        health =
            update (is_health id) (fail_operation n row.0.failure_threshold now cause) s.health;
      })
      t out h₄

finish_delivery-IsSame :
    (outbox destination owner : Text) (set : OutboxDelivery → OutboxDelivery) (s t : Store)
    → finish_delivery outbox destination owner set s ≡ ok t
    → IsSame s t
unfolding finish_delivery
finish_delivery-IsSame outbox destination owner set s t h = (ground arith, ground arith)

after-IsSame {ℓ} :
    {A : Type ℓ} (f : A → Store) (s : Store) (r : Result Error A)
    → ((a : A) → r ≡ ok a → IsSame s (f a))
    → IsSame s (Outbox.after f s r)
after-IsSame f s (ok a) step = step a refl
after-IsSame f s (err e) step = (refl, refl)

-- A call of the outbox.
pub step-IsSame : (s : Store) (c : Outbox.Call) → IsSame s (Outbox.step s c)
unfolding Outbox.step claim_outbox mark_delivered defer_delivery mark_delivery_failed
    retry_dead_delivery
step-IsSame s (Outbox.claims owner claim_id now duration limit) =
    after-IsSame _ s (claim_outbox owner claim_id now duration limit s)
      (λ r e. (ground arith, ground arith))
step-IsSame s (Outbox.delivers outbox destination owner now) =
    after-IsSame _ s (mark_delivered outbox destination owner now s)
      (λ t e. finish_delivery-IsSame outbox destination owner _ s t e)
step-IsSame s (Outbox.defers outbox destination owner at) =
    after-IsSame _ s (defer_delivery outbox destination owner at s)
      (λ t e. finish_delivery-IsSame outbox destination owner _ s t e)
step-IsSame s (Outbox.fails outbox destination owner error now at max_attempts) =
    after-IsSame _ s (mark_delivery_failed outbox destination owner error now at max_attempts s)
      (λ t e. (
        ground (arith, finish_delivery-IsSame outbox destination owner _ s t),
        ground (arith, finish_delivery-IsSame outbox destination owner _ s t),
      ))
step-IsSame s (Outbox.retries outbox destination now) =
    after-IsSame _ s (retry_dead_delivery outbox destination now s)
      (λ t e. (ground arith, ground arith))

Keeps-IsSame : (w : Sweep) (now : ℕ) (s t : Store) → Keeps w now s t → IsSame s t
Keeps-IsSame outbox_sweep now s t k =
    (ap (λ (r : Store). r.deployments) k.others, ap (λ (r : Store). r.generations) k.others)
Keeps-IsSame transactions_sweep now s t k =
    (ap (λ (r : Store). r.deployments) k.others, ap (λ (r : Store). r.generations) k.others)

-- A slice of a sweep.
pub after_slice-IsSame :
    (event_row : OutboxEvent → ℕ) (generation_row : Generation → ℕ) (x : Slice) (s : Store)
    → IsSame s (after_slice event_row generation_row x s)
after_slice-IsSame event_row generation_row x s =
    Keeps-IsSame x.sweep x.now s (after_slice event_row generation_row x s)
      (prune-Keeps event_row generation_row x.sweep x.now x.budget x.before x.snapshot x.current s)
