-- ===== src/Worker/Session/Commits.antt =====
-- session.go, `Session.Commit`: its branches.
use monitord.Base.{
  ◌≤◌, Text, text_eq, eq_of_text_eq, ◌≡◌, refl, sym, ap, ◌∙◌, ◌⊎◌, inl, inr, Bool, true, not, ◌&&◌,
  Option, none, some, List, [], ◌∷◌, arith, length, Bool-cases, Option-cases,
}
use monitord.Worker.Protocol.{Entry}
use monitord.Worker.Session.{
  Codec, Tx, Session, Commit, Fault, unencodable, Action, stored, put_all, changed, is_nil,
  decode_state, performed, opened, take_over, adopt, acknowledged, publish, enter, session_commit,
}
use monitord.Worker.Session.Checkpoints.{IsMap, IsSound, performed-IsSound, over, stored-put_all}

nil_of : {A : Type 0} → (xs : List A) → is_nil xs ≡ true → xs ≡ []
nil_of [] h = refl
nil_of (x ∷ xs) h = absurd (ground arith)

module _ {S : Type 0} (k : Codec S) {C : Type 0} (committer : C → Commit → C × Option Text) where
  -- A commit that returns nil: nothing was to be committed, or the committer accepted the request.
  pub record Quiet (s : Session) (tx : Tx S) (c : C) (s' : Session) (c' : C) : Type 0 where
    pub same_session : s' ≡ s
    pub same_committer : c' ≡ c
    pub same_state : k.encode tx.state ≡ some s.state
    pub no_events : tx.events ≡ []

  pub record Published (s : Session) (tx : Tx S) (c : C) (s' : Session) (c' : C) : Type 0 where
    pub request : Commit
    pub next : k.encode tx.state ≡ some request.next_state
    pub events : request.events ≡ tx.events
    pub acked : Text
    pub accepted : committer c request ≡ (c', some acked)
    pub taken : S
    pub decoded : decode_state k acked ≡ some taken
    pub state : k.encode taken ≡ some s'.state

  pub record Returned (actions : List (Action S)) (s : Session) (c : C) (s' : Session) (c' : C)
      : Type 0 where
    pub start : S
    pub began : decode_state k s.state ≡ some start
    pub bounded : length (performed k actions (opened k s start)).events ≤ s.max_events
    pub checkpoints :
        (source : Text)
        → stored source s'.checkpoints
          ≡ over source (performed k actions (opened k s start)).checkpoints s.checkpoints
    pub outcome :
        Quiet s (performed k actions (opened k s start)) c s' c'
        ⊎ Published s (performed k actions (opened k s start)) c s' c'

  -- An error leaves the session as it was, unless the acknowledged state does not encode.
  abbrev pub Leads : Session → (Session → C → Type 0) → C × (Session × Option Fault) → Type 0
  Leads s P (c', (s', none)) = P s' c'
  Leads s P (c', (s', some e)) = (s' ≡ s) ⊎ ((s' ≡ record s { state = [] }) × (e ≡ unencodable))

  no_news :
      (source : Text) (es m : List Entry)
      → IsMap es
      → is_nil (changed m es) ≡ true
      → stored source m ≡ over source es m
  unfolding put_all
  no_news source es m h e = quiet (changed m es) e refl
    where
      quiet :
          (news : List Entry)
          → is_nil news ≡ true
          → changed m es ≡ news
          → stored source m ≡ over source es m
      quiet [] e same =
          sym (ap (λ n. stored source (put_all n m)) same) ∙ stored-put_all source es m h
      quiet (n ∷ ns) e same = absurd (ground arith)

  module _ (actions : List (Action S)) (s : Session) (c : C) (v : S)
      (began : decode_state k s.state ≡ some v) where
    abbrev tx : Tx S
    tx = performed k actions (opened k s v)

    sound : IsSound k s.max_events tx
    sound =
        performed-IsSound k s.max_events actions (opened k s v)
          (record { entries = tt; limit = refl; bounded = omega arith })

    abbrev request : Text → Commit
    request next = record {
      base_state = s.state;
      next_state = next;
      events = tx.events;
      checkpoints = changed s.checkpoints tx.checkpoints;
    }

    adopt-Leads :
        (next : Text) (c' : C) (acked : Text)
        → k.encode tx.state ≡ some next
        → committer c (request next) ≡ (c', some acked)
        → Leads s
            (Returned actions s c)
            (c', adopt k s (changed s.checkpoints tx.checkpoints) (decode_state k acked))
    unfolding adopt take_over
    adopt-Leads next c' acked encoded accepted = elim (Option-cases (decode_state k acked)) [
      | inl e ↦ rw e (inl refl)
      | inr (taken, e) ↦ elim (Option-cases (k.encode taken)) [
        | inl x ↦ rw (e, x) (inr (refl, refl))
        | inr (raw, x) ↦
            rw (e, x)
              (record {
                start = v;
                began = began;
                bounded = sound.bounded;
                checkpoints =
                    λ source. stored-put_all source tx.checkpoints s.checkpoints sound.entries;
                outcome = inr (record {
                  request = request next;
                  next = encoded;
                  events = refl;
                  acked = acked;
                  accepted = accepted;
                  taken = taken;
                  decoded = e;
                  state = x;
                });
              })
      ]
    ]

    acknowledged-Leads :
        (next : Text) (r : C × Option Text)
        → k.encode tx.state ≡ some next
        → committer c (request next) ≡ r
        → Leads s
            (Returned actions s c)
            (acknowledged k committer s (changed s.checkpoints tx.checkpoints) r)
    unfolding acknowledged
    acknowledged-Leads next (c', none) encoded accepted = inl refl
    acknowledged-Leads next (c', some acked) encoded accepted =
        adopt-Leads next c' acked encoded accepted

    publish-Leads : Leads s (Returned actions s c) (publish k committer s tx c (k.encode tx.state))
    unfolding publish
    publish-Leads = elim (Option-cases (k.encode tx.state)) [
      | inl e ↦ rw e (inl refl)
      | inr (next, e) ↦
          let news = changed s.checkpoints tx.checkpoints in
          elim (Bool-cases (text_eq s.state next && (is_nil tx.events && is_nil news))) [
            | inl same ↦
                rw (e, same)
                  (record {
                    start = v;
                    began = began;
                    bounded = sound.bounded;
                    checkpoints = λ source.
                        no_news source tx.checkpoints s.checkpoints sound.entries (ground arith);
                    outcome = inl (record {
                      same_session = refl;
                      same_committer = refl;
                      same_state = e ∙ ap some (sym (eq_of_text_eq s.state next (ground arith)));
                      no_events = nil_of tx.events (ground arith);
                    });
                  })
            | inr differs ↦
                rw (e, differs) (acknowledged-Leads next (committer c (request next)) e refl)
          ]
    ]

  -- A commit of a session either fails, and the session is as before unless the acknowledged state does
  -- not encode; or it returns nil, and then: the closure's events are within the limit; every source
  -- has the checkpoint that the closure gave last or else its old one; and either state, events and
  -- session are as before and the committer was not called, or the committer accepted the closure's
  -- state and events and the session has the acknowledged state.
  pub session_commit-Leads :
      (alive : Bool) (actions : List (Action S)) (returns_nil still_alive : Bool) (s : Session)
      (c : C)
      → Leads s
          (Returned actions s c)
          (session_commit k committer alive actions returns_nil still_alive s c)
  unfolding session_commit enter
  session_commit-Leads alive actions returns_nil still_alive s c = elim (Bool-cases (not alive)) [
    | inl e ↦ rw e (inl refl)
    | inr e ↦ elim (Option-cases (decode_state k s.state)) [
      | inl x ↦ rw (e, x) (inl refl)
      | inr (v, x) ↦ elim (Bool-cases (not returns_nil)) [
        | inl r ↦ rw (e, x, r) (inl refl)
        | inr r ↦ elim (Bool-cases (not still_alive)) [
          | inl a ↦ rw (e, x, r, a) (inl refl)
          | inr a ↦ rw (e, x, r, a) (publish-Leads actions s c v x)
        ]
      ]
    ]
  ]
