-- ===== src/Storage/Retention/Prune.antt =====
-- internal/storage/retention.go, `prune`: the writes of one slice.
use monitord.Base.{
  ℕ, ◌+◌, ◌-◌, text_eq, Bool, true, false, not, ◌&&◌, none, some, List, [], ◌∷◌, ◌==◌, length, any,
  if◌then◌else◌,
}
use monitord.Base.Table.{select, delete}
use monitord.Storage.Schema.{Store, OutboxEvent, Transaction, Generation, is_transaction}
use monitord.Storage.Retention.{
  Sweep, Cursor, first_cursor, same_cursor, Candidate, Page, PruneResult, hour, waits,
  is_prunable_event, is_prunable_transaction, outbox_sweep, transactions_sweep,
}
use monitord.Storage.Retention.Discover.{discover}

module _ (event_row : OutboxEvent → ℕ) (generation_row : Generation → ℕ) where
  -- DELETE … WHERE rowid = ?, where the conditions still hold; the deliveries go with their event.
  abbrev pub is_deleted_event : ℕ → Store → ℕ → OutboxEvent → Bool
  is_deleted_event now s row e = event_row e == row && is_prunable_event now s e

  unfoldable pub delete_event : ℕ → ℕ → Store → Store
  unfolding is_prunable_event delete
  delete_event now row s =
      let gone = select (is_deleted_event now s row) s.outbox.events in
      record s {
        outbox = record {
          events = delete (is_deleted_event now s row) s.outbox.events;
          deliveries =
              delete
                (λ d.
                  any
                    (λ (e : OutboxEvent).
                      text_eq d.outbox_id e.outbox_id && text_eq d.deployment_id e.deployment_id)
                    gone)
                s.outbox.deliveries;
        };
      }

  abbrev pub is_deleted_transaction : ℕ → Page → Store → ℕ → Transaction → Bool
  is_deleted_transaction now p s seq t =
      is_transaction p.deployment p.generation seq t && is_prunable_transaction now s t

  unfoldable pub delete_transaction : ℕ → Page → ℕ → Store → Store
  unfolding is_prunable_transaction delete
  delete_transaction now p seq s = record s {
    transactions = delete (is_deleted_transaction now p s seq) s.transactions;
  }

  unfoldable pub delete_candidate : Sweep → ℕ → Page → ℕ → Store → Store
  unfolding delete_event delete_transaction
  delete_candidate outbox_sweep now p row s = delete_event now row s
  delete_candidate transactions_sweep now p row s = delete_transaction now p row s

  abbrev pub passed : Sweep → ℕ → Cursor → Cursor
  passed outbox_sweep row c = record c { after = row }
  passed transactions_sweep row c = record c { sequence = row }

  -- The loop over the candidates. `budget` is the number of deletions before the one at which the
  -- time is over.
  unfoldable pub delete_page :
      Sweep → ℕ → Page → ℕ → List Candidate → Cursor → ℕ → Store → Store × (Cursor × ℕ)
  unfolding delete_candidate
  delete_page w now p budget [] c scanned s = (s, (c, scanned))
  delete_page w now p budget (candidate ∷ rest) c scanned s =
      let next = passed w candidate.row c in
      let skipped = delete_page w now p budget rest next (scanned + 1) s in
      let after = delete_candidate w now p candidate.row s in
      let ended : Store × (Cursor × ℕ) = (after, (next, scanned + 1)) in
      let going = delete_page w now p (budget - 1) rest next (scanned + 1) after in
      if not candidate.eligible then skipped else if budget == 0 then ended else going

  abbrev pub rows_of : Sweep → Store → ℕ
  rows_of outbox_sweep s = length s.outbox.events
  rows_of transactions_sweep s = length s.transactions

  abbrev pub swept : Sweep → ℕ → Page → Store → Store × (Cursor × ℕ) → Store × Cursor × PruneResult
  swept w now p s (t, (c, scanned)) =
      let deleted = rows_of w s - rows_of w t in
      if p.complete
      then (
        t,
        record first_cursor { next = now + hour },
        record {
          scanned = scanned;
          deleted = deleted;
          more = false;
          next_sweep_at = some (now + hour);
        },
      )
      else (
        t,
        c,
        record { scanned = scanned; deleted = deleted; more = true; next_sweep_at = none },
      )

  -- `prune`: the snapshot and the cursor that the page is read from, and then the tables and the
  -- cursor of the writer.
  unfoldable pub prune :
      Sweep → ℕ → ℕ → Cursor → Store → Cursor → Store → Store × Cursor × PruneResult
  unfolding discover delete_page same_cursor
  prune w now budget before snapshot current s =
      let p = discover event_row generation_row w now before snapshot in
      if waits now before
      then (
        s,
        current,
        record { scanned = 0; deleted = 0; more = false; next_sweep_at = some before.next },
      )
      else if not (same_cursor current before)
      then (s, current, record { scanned = 0; deleted = 0; more = true; next_sweep_at = none })
      else swept w now p s (delete_page w now p budget p.candidates p.next 0 s)
