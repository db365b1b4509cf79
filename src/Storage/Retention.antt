-- ===== src/Storage/Retention.antt =====
-- internal/storage/retention.go: bounded sweeps that delete old events and old ledger rows. A sweep
-- reads a page from a snapshot and deletes later; the tables and the cursor may have changed in
-- between. The rowids that SQLite gives are a parameter. A failed statement rolls the slice back.
pub mod Discover
pub mod Prune
pub mod Kept
pub mod Replayed
use monitord.Base.{
  ℕ, zero, suc, ◌+◌, ◌*◌, ◌-◌, Text, text_eq, Bool, true, false, not, ◌&&◌, ◌||◌, Option, none,
  some, List, [], ◌∷◌, map, ◌==◌, ltb, leb, length, take, any, if◌then◌else◌, sort_by, is_some,
}
use monitord.Base.Table.{find, select, delete, count, max_of}
use monitord.Storage.Schema.{
  Store, Outbox, OutboxEvent, OutboxDelivery, DeliveryStatus, pending, sending, Transaction,
  Generation, Deployment, has_id, is_generation, is_transaction,
}

-- The two sweeps, by the name of their cursor.
pub data Sweep : Type 0 where
  outbox_sweep transactions_sweep : Sweep

pub record Cursor : Type 0 where
  pub after : ℕ
  pub through : ℕ
  pub next : ℕ
  pub generation : ℕ
  pub sequence : ℕ

abbrev pub first_cursor : Cursor
first_cursor = record { after = 0; through = 0; next = 0; generation = 0; sequence = 0 }

unfoldable pub same_cursor : Cursor → Cursor → Bool
same_cursor a b =
    a.after == b.after
    && (a.through == b.through
        && (a.next == b.next && (a.generation == b.generation && a.sequence == b.sequence)))

pub record Candidate : Type 0 where
  pub row : ℕ
  pub eligible : Bool

pub record Page : Type 0 where
  pub next : Cursor
  pub candidates : List Candidate
  pub deployment : Text
  pub generation : ℕ
  pub complete : Bool

pub record PruneResult : Type 0 where
  pub scanned : ℕ
  pub deleted : ℕ
  pub more : Bool
  pub next_sweep_at : Option ℕ

abbrev pub batch : ℕ
batch = 64

-- Seven days and one hour, in milliseconds.
abbrev pub week : ℕ
week = 7 * 24 * 60 * 60 * 1000

abbrev pub hour : ℕ
hour = 60 * 60 * 1000

abbrev pub waits : ℕ → Cursor → Bool
waits now c = c.through == 0 && ltb now c.next

-- A cursor at rest starts over, up to the largest rowid.
abbrev pub begun : ℕ → Cursor → Cursor
begun through c = if c.through == 0 then record first_cursor { through = through } else c

abbrev pub empty_page : Cursor → Bool → Page
empty_page c complete = record {
  next = c;
  candidates = [];
  deployment = [];
  generation = 0;
  complete = complete;
}

abbrev pub is_open_status : DeliveryStatus → Bool
is_open_status pending = true
is_open_status sending = true
is_open_status _ = false

abbrev pub is_open : OutboxDelivery → Bool
is_open d = is_open_status d.status

-- The retention of the deployment is over; the comparison with no deployment is NULL.
unfoldable pub is_expired : ℕ → List Deployment → OutboxEvent → Bool
is_expired now ds e = elim (find (has_id e.deployment_id) ds) [
  | none ↦ false
  | some d ↦ ltb (e.created_at + d.event_retention_ms) now
]

unfoldable pub is_prunable_event : ℕ → Store → OutboxEvent → Bool
unfolding is_expired
is_prunable_event now s e =
    is_expired now s.deployments e
    && not (any (λ d. text_eq d.outbox_id e.outbox_id && is_open d) s.outbox.deliveries)

abbrev pub retired_before : ℕ → Option ℕ → Bool
retired_before now none = false
retired_before now (some at) = ltb (at + week) now

abbrev pub is_old : ℕ → Generation → Bool
is_old now g = not g.is_live && retired_before now g.retired_at

abbrev pub is_event_of : Text → ℕ → ℕ → OutboxEvent → Bool
is_event_of id generation seq e =
    text_eq e.deployment_id id
    && (e.generation == generation && elim e.transaction_seq [ none ↦ false | some n ↦ n == seq ])

abbrev pub has_event : Store → Text → ℕ → ℕ → Bool
has_event s id generation seq = any (is_event_of id generation seq) s.outbox.events

unfoldable pub is_prunable_transaction : ℕ → Store → Transaction → Bool
is_prunable_transaction now s t =
    any (λ g. is_generation t.deployment_id t.generation g && is_old now g) s.generations
    && not (has_event s t.deployment_id t.generation t.seq)

-- The rows of a page by a key, in its order.
abbrev pub by_key : {A : Type 0} → (A → ℕ) → (A → Bool) → List A → List A
by_key key p rows = take batch (sort_by (λ a b. leb (key a) (key b)) (select p rows))

abbrev pub is_within : ℕ → ℕ → ℕ → Bool
is_within after through row = ltb after row && leb row through

-- The loop over a page of generations: the first old one, or the last row visited.
unfoldable pub first_old : (Generation → ℕ) → ℕ → ℕ → List Generation → ℕ × Option Generation
first_old row now after [] = (after, none)
first_old row now after (g ∷ gs) =
    let rest = first_old row now (row g) gs in if is_old now g then (after, some g) else rest
