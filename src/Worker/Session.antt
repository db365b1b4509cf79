-- ===== src/Worker/Session.antt =====
-- session.go and state.go: a session's commit. The closure that a monitor gives is the list of its
-- calls on the transaction, whatever it does with their results, and whether it returns nil. The JSON
-- codec of the state type and of events, and strings.TrimSpace, are the parameters of `Codec`.
pub mod Checkpoints
pub mod Commits
use monitord.Base.{
  ℕ, Text, text_eq, codes, Bool, true, false, not, ◌&&◌, ◌||◌, Option, none, some, List, [], ◌∷◌,
  ◌++◌, length, ltb, if◌then◌else◌,
}
use monitord.Base.Table.{select, delete}
use monitord.Worker.Protocol.{Event, Entry, is_empty, valid_event}

pub record Codec (S : Type 0) : Type 0 where
  pub zero_state : S
  pub decode : Text → Option S
  pub encode : S → Option Text
  pub clone : Event → Option Event
  pub trim_space : Text → Text
  pub json_valid : Text → Bool

pub record Tx (S : Type 0) : Type 0 where
  pub state : S
  pub events : List Event
  pub checkpoints : List Entry
  pub max_events : ℕ

pub record Session : Type 0 where
  pub state : Text
  pub checkpoints : List Entry
  pub max_events : ℕ

-- What the committer is given.
pub record Commit : Type 0 where
  pub base_state : Text
  pub next_state : Text
  pub events : List Event
  pub checkpoints : List Entry

pub data Fault : Type 0 where
  cancelled undecodable aborted unencodable uncommitted : Fault

-- A call of the closure: it emits an event, gives a checkpoint whose encoding may fail, or assigns to
-- the state.
pub data Action (S : Type 0) : Type 0 where
  emits : Event → Action S
  saves : Text → Option Text → Action S
  assigns : S → Action S

-- A Go map as the list of its entries: a new value takes the place of the old one.
abbrev pub is_source : Text → Entry → Bool
is_source source e = text_eq e.source source

unfoldable pub put : Entry → List Entry → List Entry
unfolding delete
put e m = e ∷ delete (is_source e.source) m

-- The value of a key, nil where there is none.
unfoldable pub stored : Text → List Entry → Text
stored source [] = []
stored source (e ∷ m) = if text_eq e.source source then e.raw else stored source m

unfoldable pub put_all : List Entry → List Entry → List Entry
unfolding put
put_all [] m = m
put_all (e ∷ es) m = put e (put_all es m)

-- The checkpoints that differ from the session's.
unfoldable pub changed : List Entry → List Entry → List Entry
unfolding stored select
changed old entries = select (λ e. not (text_eq e.raw (stored e.source old))) entries

abbrev pub is_nil : {A : Type 0} → List A → Bool
is_nil [] = true
is_nil (x ∷ xs) = false

module _ {S : Type 0} (k : Codec S) where
  unfoldable pub decode_state : Text → Option S
  decode_state raw =
      let trimmed = k.trim_space raw in
      if is_empty trimmed || text_eq trimmed (codes "null") then some k.zero_state else k.decode raw

  abbrev pub cloned : Tx S → Option Event → Tx S
  cloned tx none = tx
  cloned tx (some e) = record tx { events = tx.events ++ e ∷ [] }

  -- `Emit`; an error leaves the transaction as it was.
  unfoldable pub emit : Event → Tx S → Tx S
  unfolding valid_event
  emit e tx =
      if not (ltb (length tx.events) tx.max_events)
      then tx
      else if not (valid_event k.trim_space k.json_valid e)
      then tx
      else cloned tx (k.clone e)

  -- `Checkpoint` of a transaction.
  unfoldable pub checkpoint : Text → Option Text → Tx S → Tx S
  unfolding put
  checkpoint source none tx = tx
  checkpoint source (some raw) tx =
      if is_empty source
      then tx
      else record tx { checkpoints = put (record { source = source; raw = raw }) tx.checkpoints }

  unfoldable pub perform : Action S → Tx S → Tx S
  unfolding emit checkpoint
  perform (emits e) tx = emit e tx
  perform (saves source raw) tx = checkpoint source raw tx
  perform (assigns v) tx = record tx { state = v }

  unfoldable pub performed : List (Action S) → Tx S → Tx S
  unfolding perform
  performed [] tx = tx
  performed (a ∷ rest) tx = performed rest (perform a tx)

  abbrev pub opened : Session → S → Tx S
  opened s v = record { state = v; events = []; checkpoints = []; max_events = s.max_events }

  -- The session takes the acknowledged state over; the encoding is assigned also beside an error.
  unfoldable pub take_over : Session → List Entry → Option Text → Session × Option Fault
  unfolding put_all
  take_over s news none = (record s { state = [] }, some unencodable)
  take_over s news (some raw) =
      (record s { state = raw; checkpoints = put_all news s.checkpoints }, none)

  unfoldable pub adopt : Session → List Entry → Option S → Session × Option Fault
  unfolding take_over
  adopt s news none = (s, some undecodable)
  adopt s news (some v) = take_over s news (k.encode v)

  module _ {C : Type 0} (committer : C → Commit → C × Option Text) where
    unfoldable pub acknowledged :
        Session → List Entry → C × Option Text → C × (Session × Option Fault)
    unfolding adopt decode_state
    acknowledged s news (c, none) = (c, (s, some uncommitted))
    acknowledged s news (c, some acked) = (c, adopt s news (decode_state acked))

    unfoldable pub publish : Session → Tx S → C → Option Text → C × (Session × Option Fault)
    unfolding acknowledged changed
    publish s tx c none = (c, (s, some unencodable))
    publish s tx c (some next) =
        let news = changed s.checkpoints tx.checkpoints in
        let request : Commit = record {
          base_state = s.state;
          next_state = next;
          events = tx.events;
          checkpoints = news;
        } in
        if text_eq s.state next && (is_nil tx.events && is_nil news)
        then (c, (s, none))
        else acknowledged s news (committer c request)

    -- The closure on a decoded state.
    unfoldable pub enter :
        List (Action S) → Bool → Bool → Session → C → Option S → C × (Session × Option Fault)
    unfolding publish performed
    enter actions returns_nil still_alive s c none = (c, (s, some undecodable))
    enter actions returns_nil still_alive s c (some v) =
        let tx = performed actions (opened s v) in
        if not returns_nil
        then (c, (s, some aborted))
        else if not still_alive
        then (c, (s, some cancelled))
        else publish s tx c (k.encode tx.state)

    -- `Session.Commit`: whether the context is alive before and after the closure.
    unfoldable pub session_commit :
        Bool → List (Action S) → Bool → Bool → Session → C → C × (Session × Option Fault)
    unfolding enter decode_state
    session_commit alive actions returns_nil still_alive s c =
        if not alive
        then (c, (s, some cancelled))
        else enter actions returns_nil still_alive s c (decode_state s.state)
