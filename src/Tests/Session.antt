-- ===== src/Tests/Session.antt =====
-- One commit of a session whose states are their own JSON.
use monitord.Base.{ℕ, ◌+◌, ◌≡◌, refl, true, none, some, List, [], ◌∷◌, Text, text_eq, codes, Option}
use monitord.Base.Table.{select, delete}
use monitord.Worker.Protocol.{Event, valid_event}
use monitord.Worker.Session.{
  Codec, Session, Commit, Action, emits, saves, assigns, session_commit, enter, publish, performed,
  perform, emit, checkpoint, put, stored, put_all, changed, decode_state, acknowledged, adopt,
  take_over,
}
use monitord.Worker.Session.Commits.{Leads, Returned, session_commit-Leads}

abbrev codec : Codec Text
codec = record {
  zero_state = 48 ∷ [];
  decode = λ t. some t;
  encode = λ t. some t;
  clone = λ e. some e;
  trim_space = λ t. t;
  json_valid = λ t. true;
}

-- A committer that counts its commits.
abbrev counting : ℕ → Commit → ℕ × Option Text
counting n r = (n + 1, some r.next_state)

abbrev session : Session
session = record {
  state = 49 ∷ [];
  checkpoints = record { source = 97 ∷ []; raw = 49 ∷ [] } ∷ [];
  max_events = 4;
}

abbrev event : Event
event = record {
  id = 101 ∷ [];
  correction_of = [];
  severity = [];
  title = 84 ∷ [];
  body = [];
  url = [];
  description = [];
  image = [];
  thumbnail = [];
  color = 0;
  fields = [];
  footer = [];
  mentions = none;
}

-- The first checkpoint is as before, and the second one is new.
abbrev calls : List (Action Text)
calls =
    assigns (50 ∷ [])
    ∷ emits event
    ∷ saves (97 ∷ []) (some (49 ∷ []))
    ∷ saves (98 ∷ []) (some (51 ∷ []))
    ∷ []

committed : session_commit codec counting true calls true true session 7 ≡ (
  8,
  (
    record {
      state = 50 ∷ [];
      checkpoints =
          record { source = 98 ∷ []; raw = 51 ∷ [] }
          ∷ record { source = 97 ∷ []; raw = 49 ∷ [] }
          ∷ [];
      max_events = 4;
    },
    none,
  ),
)
unfolding session_commit enter publish performed perform emit checkpoint put stored put_all changed
    decode_state acknowledged adopt take_over valid_event select delete text_eq codes
committed = refl

session_commit-Leads_example :
    Leads codec counting session
      (Returned codec counting calls session 7)
      (session_commit codec counting true calls true true session 7)
session_commit-Leads_example = session_commit-Leads codec counting true calls true true session 7
