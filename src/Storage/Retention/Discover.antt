-- ===== src/Storage/Retention/Discover.antt =====
-- internal/storage/retention.go, `discoverMaintenance`: the page of a sweep, from a snapshot.
use monitord.Base.{
  ℕ, Text, text_eq, true, false, not, ◌&&◌, Option, none, some, [], map, ◌==◌, ltb, length, any,
  if◌then◌else◌, sort_by,
}
use monitord.Base.Table.{find, select, max_of}
use monitord.Storage.Schema.{Store, OutboxEvent, Transaction, Generation}
use monitord.Storage.Retention.{
  Sweep, Cursor, Page, waits, begun, empty_page, is_prunable_event, is_old, has_event, by_key,
  is_within, first_old, outbox_sweep, transactions_sweep,
}

module _ (event_row : OutboxEvent → ℕ) (generation_row : Generation → ℕ) where
  unfoldable pub discover_outbox : ℕ → Cursor → Store → Page
  unfolding is_prunable_event select sort_by max_of
  discover_outbox now before s =
      let next = begun (max_of (λ e. true) event_row s.outbox.events) before in
      let rows =
        by_key event_row (λ e. is_within next.after next.through (event_row e)) s.outbox.events in
      let page : Page = record {
        next = next;
        candidates =
            map (λ e. record { row = event_row e; eligible = is_prunable_event now s e }) rows;
        deployment = [];
        generation = 0;
        complete = length rows == 0;
      } in
      if waits now before then empty_page before false else page

  -- The transactions of one old generation.
  abbrev pub finished_generation : Cursor → Cursor
  finished_generation c = record c { after = c.generation; generation = 0; sequence = 0 }

  unfoldable pub transactions_page : Cursor → Text → ℕ → Store → Page
  unfolding select sort_by
  transactions_page next id generation s =
      let rows =
        by_key (λ (t : Transaction). t.seq)
          (λ t.
            text_eq t.deployment_id id && (t.generation == generation && ltb next.sequence t.seq))
          s.transactions in
      record {
        next = if length rows == 0 then finished_generation next else next;
        candidates =
            map
              (λ (t : Transaction). record {
                row = t.seq;
                eligible = not (has_event s id generation t.seq);
              })
              rows;
        deployment = id;
        generation = generation;
        complete = false;
      }

  unfoldable pub visited : ℕ → Cursor → Store → ℕ × Option Generation → Page
  unfolding transactions_page
  visited now next s (after, none) =
      empty_page (record next { after = after })
        (not (any (λ g. is_within after next.through (generation_row g)) s.generations))
  visited now next s (after, some g) =
      transactions_page (record next { after = after; generation = generation_row g })
        g.deployment_id g.generation s

  -- A deployment can be purged between two slices.
  unfoldable pub resumed : Cursor → Store → Option Generation → Page
  unfolding transactions_page
  resumed next s none = empty_page (finished_generation next) false
  resumed next s (some g) = transactions_page next g.deployment_id g.generation s

  unfoldable pub discover_transactions : ℕ → Cursor → Store → Page
  unfolding visited resumed first_old find select sort_by max_of
  discover_transactions now before s =
      let next = begun (max_of (λ g. true) generation_row s.generations) before in
      let fresh = visited now next s (
        first_old generation_row now next.after (
          by_key generation_row (λ g. is_within next.after next.through (generation_row g))
            s.generations)) in
      let again =
        resumed next s
          (find (λ g. generation_row g == next.generation && is_old now g) s.generations) in
      if waits now before
      then empty_page before false
      else if next.generation == 0
      then fresh
      else again

  unfoldable pub discover : Sweep → ℕ → Cursor → Store → Page
  unfolding discover_outbox discover_transactions
  discover outbox_sweep now before s = discover_outbox now before s
  discover transactions_sweep now before s = discover_transactions now before s
