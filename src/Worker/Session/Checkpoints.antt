-- ===== src/Worker/Session/Checkpoints.antt =====
-- session.go: the checkpoints of a session after a commit.
use mathlib.Core.Path.{subst}
use monitord.Base.{
  ℕ, ◌≤◌, Text, text_eq, eq_of_text_eq, ◌≡◌, refl, sym, ap, ◌∙◌, inl, inr, Bool, false, not, Option,
  none, some, List, [], ◌∷◌, any, arith, length, length-append, ltb, if◌then◌else◌, Bool-cases,
}
use monitord.Base.Table.{select, delete}
use monitord.Worker.Protocol.{Event, Entry, is_empty, valid_event}
use monitord.Worker.Session.{
  Codec, Tx, Action, emits, saves, assigns, is_source, put, stored, put_all, changed, cloned, emit,
  checkpoint, perform, performed,
}

-- No source has two entries.
abbrev pub IsMap : List Entry → Type 0
IsMap [] = Unit
IsMap (e ∷ m) = (any (is_source e.source) m ≡ false) × IsMap m

any-delete : (p q : Entry → Bool) (m : List Entry) → any p m ≡ false → any p (delete q m) ≡ false
unfolding delete select
any-delete p q [] h = refl
any-delete p q (e ∷ m) h = ground (arith, any-delete p q m)

deleted_source :
    (source : Text) (m : List Entry) → any (is_source source) (delete (is_source source) m) ≡ false
unfolding delete select
deleted_source source [] = refl
deleted_source source (e ∷ m) = ground (arith, deleted_source source m)

delete-IsMap : (q : Entry → Bool) (m : List Entry) → IsMap m → IsMap (delete q m)
unfolding delete select
delete-IsMap q [] h = tt
delete-IsMap q (e ∷ m) (here, rest) = elim (Bool-cases (q e)) [
  | inl gone ↦ rw gone (delete-IsMap q m rest)
  | inr kept ↦ rw kept (any-delete (is_source e.source) q m here, delete-IsMap q m rest)
]

pub put-IsMap : (e : Entry) (m : List Entry) → IsMap m → IsMap (put e m)
unfolding put
put-IsMap e m h = (deleted_source e.source m, delete-IsMap (is_source e.source) m h)

stored-delete :
    (source other : Text) (m : List Entry)
    → text_eq other source ≡ false
    → stored source (delete (is_source other) m) ≡ stored source m
unfolding stored delete select
stored-delete source other [] h = refl
stored-delete source other (e ∷ m) h = elim (Bool-cases (text_eq e.source other)) [
  | inl same ↦
      let at = eq_of_text_eq e.source other same in
      rw same (stored-delete source other m h ∙ sym (rw (at, h) refl))
  | inr differs ↦ rw differs (ground (arith, stored-delete source other m h))
]

pub stored-put :
    (source : Text) (e : Entry) (m : List Entry)
    → stored source (put e m) ≡ (if text_eq e.source source then e.raw else stored source m)
unfolding put stored
stored-put source e m = elim (Bool-cases (text_eq e.source source)) [
  | inl same ↦ rw same refl
  | inr differs ↦ rw differs (stored-delete source e.source m differs)
]

-- The entries over the map.
unfoldable pub over : Text → List Entry → List Entry → Text
unfolding stored
over source [] m = stored source m
over source (e ∷ es) m = if text_eq e.source source then e.raw else over source es m

over-absent :
    (source : Text) (es m : List Entry)
    → any (is_source source) es ≡ false
    → over source es m ≡ stored source m
unfolding over
over-absent source [] m h = refl
over-absent source (e ∷ es) m h = ground (arith, over-absent source es m)

-- The checkpoints that are equal may be left out.
pub stored-put_all :
    (source : Text) (es m : List Entry)
    → IsMap es
    → stored source (put_all (changed m es) m) ≡ over source es m
unfolding over put_all changed select
stored-put_all source [] m h = refl
stored-put_all source (e ∷ es) m (here, rest) =
    let later = stored-put_all source es m rest in
    elim (Bool-cases (text_eq e.raw (stored e.source m))) [
      | inl same ↦ elim (Bool-cases (text_eq e.source source)) [
        | inl mine ↦
            let at = eq_of_text_eq e.source source mine in
            let raw = eq_of_text_eq e.raw (stored e.source m) same in
            let absent : any (is_source source) es ≡ false =
              subst (λ x. any (is_source x) es ≡ false) at here in
            rw (same, mine)
              (later ∙ over-absent source es m absent ∙ ap (λ x. stored x m) (sym at) ∙ sym raw)
        | inr other ↦ rw (same, other) later
      ]
      | inr differs ↦ rw differs (stored-put source e (put_all (changed m es) m) ∙ rw later refl)
    ]

module _ {S : Type 0} (k : Codec S) (max : ℕ) where
  -- A transaction of a session: a map of checkpoints, and no more events than the limit.
  pub record IsSound (tx : Tx S) : Type 0 where
    pub entries : IsMap tx.checkpoints
    pub limit : tx.max_events ≡ max
    pub bounded : length tx.events ≤ max

  emit-IsSound : (e : Event) (tx : Tx S) → IsSound tx → IsSound (emit k e tx)
  unfolding emit
  emit-IsSound e tx h = elim (Bool-cases (not (ltb (length tx.events) tx.max_events))) [
    | inl full ↦ rw full h
    | inr room ↦ elim (Bool-cases (not (valid_event k.trim_space k.json_valid e))) [
      | inl bad ↦ rw (room, bad) h
      | inr good ↦ rw (room, good) (cloned-IsSound (k.clone e) room)
    ]
  ]
    where
      cloned-IsSound :
          (o : Option Event)
          → not (ltb (length tx.events) tx.max_events) ≡ false
          → IsSound (cloned k tx o)
      cloned-IsSound none room = h
      cloned-IsSound (some x) room = record {
        entries = h.entries;
        limit = h.limit;
        bounded = ground (arith, h.limit, length-append tx.events (x ∷ []));
      }

  checkpoint-IsSound :
      (source : Text) (o : Option Text) (tx : Tx S)
      → IsSound tx
      → IsSound (checkpoint k source o tx)
  unfolding checkpoint
  checkpoint-IsSound source none tx h = h
  checkpoint-IsSound source (some raw) tx h = elim (Bool-cases (is_empty source)) [
    | inl e ↦ rw e h
    | inr e ↦
        let entry : Entry = record { source = source; raw = raw } in
        rw e (record {
          entries = put-IsMap entry tx.checkpoints h.entries;
          limit = h.limit;
          bounded = h.bounded;
        })
  ]

  perform-IsSound : (a : Action S) (tx : Tx S) → IsSound tx → IsSound (perform k a tx)
  unfolding perform
  perform-IsSound (emits e) tx h = emit-IsSound e tx h
  perform-IsSound (saves source raw) tx h = checkpoint-IsSound source raw tx h
  perform-IsSound (assigns v) tx h = record {
    entries = h.entries;
    limit = h.limit;
    bounded = h.bounded;
  }

  pub performed-IsSound :
      (actions : List (Action S)) (tx : Tx S) → IsSound tx → IsSound (performed k actions tx)
  unfolding performed
  performed-IsSound [] tx h = h
  performed-IsSound (a ∷ rest) tx h =
      performed-IsSound rest (perform k a tx) (perform-IsSound a tx h)
