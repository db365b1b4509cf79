-- ===== src/Storage/Retention/Kept.antt =====
-- internal/storage/retention.go: what a slice of a sweep keeps.
use monitord.Base.{
  ℕ, ◌+◌, ◌-◌, text_eq, ◌≡◌, refl, sym, ap, ◌∙◌, inl, inr, Bool, true, false, not, ◌&&◌, ◌||◌, List,
  [], ◌∷◌, ◌==◌, any, All-intro, arith, Bool-cases,
}
use monitord.Base.Table.{select, delete, All-imp}
use monitord.Base.Deletions.{
  select-delete, any-select, any-of_member, any-select-found, delete-cong, delete-delete,
  delete-never, any-turns, any-never,
}
use monitord.Storage.Schema.{
  Store, OutboxEvent, OutboxDelivery, Transaction, Generation, is_generation,
}
use monitord.Storage.Retention.{
  Sweep, outbox_sweep, transactions_sweep, Cursor, Candidate, Page, waits, same_cursor, is_open,
  is_expired, is_old, has_event, is_prunable_event, is_prunable_transaction,
}
use monitord.Storage.Retention.Discover.{discover}
use monitord.Storage.Retention.Prune.{
  is_deleted_event, is_deleted_transaction, delete_event, delete_transaction, delete_candidate,
  delete_page, passed, swept, prune,
}

-- The delivery is one of the event.
abbrev pub belongs : OutboxDelivery → OutboxEvent → Bool
belongs d e = text_eq d.outbox_id e.outbox_id && text_eq d.deployment_id e.deployment_id

-- The slice of the outbox has deleted some events whose retention is over and that have no pending
-- or sending delivery, with exactly their deliveries, and that is all it has done.
pub record KeepsOutbox (now : ℕ) (s t : Store) : Type 0 where
  pub gone : OutboxEvent → Bool
  pub expired : (e : OutboxEvent) → gone e ≡ true → is_expired now s.deployments e ≡ true
  pub settled :
      (e : OutboxEvent)
      → gone e ≡ true
      → any (λ d. text_eq d.outbox_id e.outbox_id && is_open d) s.outbox.deliveries ≡ false
  pub events : t.outbox.events ≡ delete gone s.outbox.events
  pub deliveries :
      t.outbox.deliveries
      ≡ delete (λ d. any (belongs d) (select gone s.outbox.events)) s.outbox.deliveries
  pub others : t ≡ record s { outbox = t.outbox }

-- The slice of the ledger has deleted some rows of generations that were retired more than a week ago
-- and that no event refers to, and that is all it has done.
pub record KeepsLedger (now : ℕ) (s t : Store) : Type 0 where
  pub gone : Transaction → Bool
  pub old :
      (r : Transaction)
      → gone r ≡ true
      → any (λ g. is_generation r.deployment_id r.generation g && is_old now g) s.generations ≡ true
  pub unused :
      (r : Transaction) → gone r ≡ true → has_event s r.deployment_id r.generation r.seq ≡ false
  pub rows : t.transactions ≡ delete gone s.transactions
  pub others : t ≡ record s { transactions = t.transactions }

open_is_kept :
    (now : ℕ) (s t : Store) (k : KeepsOutbox now s t) (d : OutboxDelivery)
    → ((p : OutboxDelivery → Bool) → p d ≡ true → any p s.outbox.deliveries ≡ true)
    → is_open d ≡ true
    → any (belongs d) (select k.gone s.outbox.events) ≡ false
open_is_kept now s t k d member is_waiting =
    elim (Bool-cases (any (belongs d) (select k.gone s.outbox.events))) [
      | inr none_gone ↦ none_gone
      | inl hit ↦
          let (e, same, deleted) = any-select-found (belongs d) k.gone s.outbox.events hit in
          let held = member (λ x. text_eq x.outbox_id e.outbox_id && is_open x) (ground arith) in
          let free = k.settled e deleted in absurd (ground arith)
    ]

-- A delivery that is pending or being sent stays.
undelivered :
    (now : ℕ) (s t : Store)
    → KeepsOutbox now s t
    → select is_open t.outbox.deliveries ≡ select is_open s.outbox.deliveries
undelivered now s t k =
    ap (select is_open) k.deliveries
    ∙ select-delete is_open _ s.outbox.deliveries (
        All-imp _ _ s.outbox.deliveries (λ d member. open_is_kept now s t k d member)
          (any-of_member s.outbox.deliveries))

-- A ledger row that is not prunable stays.
pub kept_rows :
    (now : ℕ) (s t : Store)
    → KeepsLedger now s t
    → select (λ r. not (is_prunable_transaction now s r)) t.transactions
      ≡ select (λ r. not (is_prunable_transaction now s r)) s.transactions
unfolding is_prunable_transaction
kept_rows now s t k =
    let kept = λ (r : Transaction). not (is_prunable_transaction now s r) in
    ap (select kept) k.rows
    ∙ select-delete kept k.gone s.transactions
        (All-intro _ s.transactions (λ r stays. spared k r stays))
  where
    spared :
        (k : KeepsLedger now s t) (r : Transaction)
        → not (is_prunable_transaction now s r) ≡ true
        → k.gone r ≡ false
    spared k r stays = elim (Bool-cases (k.gone r)) [
      | inl hit ↦ let age = k.old r hit in let free = k.unused r hit in absurd (ground arith)
      | inr miss ↦ miss
    ]

module _ (event_row : OutboxEvent → ℕ) (generation_row : Generation → ℕ) (now : ℕ) where
  delete_event-KeepsOutbox :
      (row : ℕ) (s : Store) → KeepsOutbox now s (delete_event event_row generation_row now row s)
  unfolding delete_event is_prunable_event
  delete_event-KeepsOutbox row s = record {
    gone = is_deleted_event event_row generation_row now s row;
    expired = λ e hit. ground arith;
    settled = λ e hit. ground arith;
    events = refl;
    deliveries = refl;
    others = refl;
  }

  delete_transaction-KeepsLedger :
      (p : Page) (seq : ℕ) (s : Store)
      → KeepsLedger now s (delete_transaction event_row generation_row now p seq s)
  unfolding delete_transaction is_prunable_transaction
  delete_transaction-KeepsLedger p seq s = record {
    gone = is_deleted_transaction event_row generation_row now p s seq;
    old = λ r hit. ground arith;
    unused = λ r hit. ground arith;
    rows = refl;
    others = refl;
  }

expired_same :
    (now : ℕ) (s t : Store) (e : OutboxEvent)
    → KeepsOutbox now s t
    → is_expired now t.deployments e ≡ is_expired now s.deployments e
expired_same now s t e k = ap (λ (r : Store). is_expired now r.deployments e) k.others

waiting_same :
    (now : ℕ) (s t : Store) (e : OutboxEvent)
    → KeepsOutbox now s t
    → any (λ d. text_eq d.outbox_id e.outbox_id && is_open d) t.outbox.deliveries
      ≡ any (λ d. text_eq d.outbox_id e.outbox_id && is_open d) s.outbox.deliveries
waiting_same now s t e k =
    let mine = λ (d : OutboxDelivery). text_eq d.outbox_id e.outbox_id in
    any-select mine is_open t.outbox.deliveries
    ∙ ap (any mine) (undelivered now s t k)
    ∙ sym (any-select mine is_open s.outbox.deliveries)

KeepsOutbox-trans :
    (now : ℕ) (s t u : Store) → KeepsOutbox now s t → KeepsOutbox now t u → KeepsOutbox now s u
KeepsOutbox-trans now s t u k l = record {
  gone = λ e. k.gone e || l.gone e;
  expired = λ e hit. elim (Bool-cases (k.gone e)) [
    | inl first ↦ k.expired e first
    | inr later ↦ sym (expired_same now s t e k) ∙ l.expired e (ground arith)
  ];
  settled = λ e hit. elim (Bool-cases (k.gone e)) [
    | inl first ↦ k.settled e first
    | inr later ↦ sym (waiting_same now s t e k) ∙ l.settled e (ground arith)
  ];
  events = l.events ∙ ap (delete l.gone) k.events ∙ delete-delete k.gone l.gone s.outbox.events;
  deliveries =
      let own = λ (d : OutboxDelivery). any (belongs d) (select k.gone s.outbox.events) in
      let next = λ (d : OutboxDelivery). any (belongs d) (select l.gone t.outbox.events) in
      l.deliveries
      ∙ ap (delete next) k.deliveries
      ∙ delete-delete own next s.outbox.deliveries
      ∙ delete-cong _ _ s.outbox.deliveries (λ d.
        ap (λ (es : List OutboxEvent). own d || any (belongs d) (select l.gone es)) k.events
        ∙ any-turns (belongs d) k.gone l.gone s.outbox.events);
  others = l.others ∙ ap (λ (r : Store). record r { outbox = u.outbox }) k.others;
}

KeepsLedger-trans :
    (now : ℕ) (s t u : Store) → KeepsLedger now s t → KeepsLedger now t u → KeepsLedger now s u
KeepsLedger-trans now s t u k l = record {
  gone = λ r. k.gone r || l.gone r;
  old = λ r hit. elim (Bool-cases (k.gone r)) [
    | inl first ↦ k.old r first
    | inr later ↦
        ap
          (λ (x : Store).
            any (λ g. is_generation r.deployment_id r.generation g && is_old now g) x.generations)
          (sym k.others)
        ∙ l.old r (ground arith)
  ];
  unused = λ r hit. elim (Bool-cases (k.gone r)) [
    | inl first ↦ k.unused r first
    | inr later ↦
        ap (λ (x : Store). has_event x r.deployment_id r.generation r.seq) (sym k.others)
        ∙ l.unused r (ground arith)
  ];
  rows = l.rows ∙ ap (delete l.gone) k.rows ∙ delete-delete k.gone l.gone s.transactions;
  others = l.others ∙ ap (λ (r : Store). record r { transactions = u.transactions }) k.others;
}

-- What one slice of a sweep keeps.
abbrev pub Keeps : Sweep → ℕ → Store → Store → Type 0
Keeps outbox_sweep now s t = KeepsOutbox now s t
Keeps transactions_sweep now s t = KeepsLedger now s t

Keeps-refl : (w : Sweep) (now : ℕ) (s : Store) → Keeps w now s s
Keeps-refl outbox_sweep now s = record {
  gone = λ _. false;
  expired = λ e hit. absurd (ground arith);
  settled = λ e hit. absurd (ground arith);
  events = sym (delete-never s.outbox.events);
  deliveries =
      sym (delete-never s.outbox.deliveries)
      ∙ delete-cong (λ _. false) _ s.outbox.deliveries
          (λ d. sym (any-never (belongs d) s.outbox.events));
  others = refl;
}
Keeps-refl transactions_sweep now s = record {
  gone = λ _. false;
  old = λ r hit. absurd (ground arith);
  unused = λ r hit. absurd (ground arith);
  rows = sym (delete-never s.transactions);
  others = refl;
}

Keeps-trans :
    (w : Sweep) (now : ℕ) (s t u : Store) → Keeps w now s t → Keeps w now t u → Keeps w now s u
Keeps-trans outbox_sweep now s t u k l = KeepsOutbox-trans now s t u k l
Keeps-trans transactions_sweep now s t u k l = KeepsLedger-trans now s t u k l

module _ (event_row : OutboxEvent → ℕ) (generation_row : Generation → ℕ) (w : Sweep) (now : ℕ) where
  delete_candidate-Keeps :
      (v : Sweep) (p : Page) (row : ℕ) (s : Store)
      → Keeps v now s (delete_candidate event_row generation_row v now p row s)
  unfolding delete_candidate
  delete_candidate-Keeps outbox_sweep p row s =
      delete_event-KeepsOutbox event_row generation_row now row s
  delete_candidate-Keeps transactions_sweep p row s =
      delete_transaction-KeepsLedger event_row generation_row now p row s

  delete_page-Keeps :
      (p : Page) (budget : ℕ) (cs : List Candidate) (c : Cursor) (scanned : ℕ) (s : Store)
      → Keeps w now s (delete_page event_row generation_row w now p budget cs c scanned s).0
  unfolding delete_page
  delete_page-Keeps p budget [] c scanned s = Keeps-refl w now s
  delete_page-Keeps p budget (x ∷ cs) c scanned s =
      let t = delete_candidate event_row generation_row w now p x.row s in
      let next = passed event_row generation_row w x.row c in
      let first = delete_candidate-Keeps w p x.row s in
      elim (Bool-cases (not x.eligible)) [
        | inl skipped ↦ rw skipped (delete_page-Keeps p budget cs next (scanned + 1) s)
        | inr eligible ↦ elim (Bool-cases (budget == 0)) [
          | inl spent ↦ rw (eligible, spent) first
          | inr going ↦
              rw (eligible, going)
                (Keeps-trans w now s t _ first
                  (delete_page-Keeps p (budget - 1) cs next (scanned + 1) t))
        ]
      ]

  swept-store :
      (p : Page) (s : Store) (r : Store × (Cursor × ℕ))
      → (swept event_row generation_row w now p s r).0 ≡ r.0
  swept-store p s (t, (c, scanned)) = elim (Bool-cases p.complete) [
    | inl e ↦ rw e refl
    | inr e ↦ rw e refl
  ]

  -- A slice of a sweep, from a page that may have been read from other tables and whatever its time
  -- budget. What the outbox sweep does is to delete some events, each with its retention over and
  -- without a pending or sending delivery, together with exactly their deliveries. What the ledger
  -- sweep does is to delete some rows, each of a generation that was retired more than a week ago and
  -- without an event that refers to it. All else is as before.
  pub prune-Keeps :
      (budget : ℕ) (before : Cursor) (snapshot : Store) (current : Cursor) (s : Store)
      → Keeps w now s (prune event_row generation_row w now budget before snapshot current s).0
  unfolding prune
  prune-Keeps budget before snapshot current s =
      let p = discover event_row generation_row w now before snapshot in
      let r = delete_page event_row generation_row w now p budget p.candidates p.next 0 s in
      elim (Bool-cases (waits now before)) [
        | inl e ↦ rw e (Keeps-refl w now s)
        | inr e ↦ elim (Bool-cases (not (same_cursor current before))) [
          | inl moved ↦ rw (e, moved) (Keeps-refl w now s)
          | inr same ↦
              rw (e, same, swept-store p s r) (delete_page-Keeps p budget p.candidates p.next 0 s)
        ]
      ]
