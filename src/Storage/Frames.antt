-- ===== src/Storage/Frames.antt =====
-- internal/storage/transactions.go: the frame of a worker transaction and its validation.
use monitord.Base.{
  ℕ, Text, Bool, true, false, not, ◌&&◌, ◌||◌, List, [], ◌∷◌, ◌==◌, ltb, text_eq, length, any,
}
use monitord.Storage.Schema.{Message, Platform}

pub record CheckpointMutation : Type 0 where
  pub source : Text
  pub value : Text

pub record DeliveryTarget : Type 0 where
  pub destination_id : Text
  pub destination_revision : ℕ

pub record EventInput : Type 0 where
  pub outbox_id : Text
  pub event_id : Text
  pub message : Message
  pub targets : List DeliveryTarget

pub record Frame : Type 0 where
  pub deployment_id : Text
  pub generation : ℕ
  pub worker_token : Text
  pub sequence : ℕ
  pub base_state_revision : ℕ
  pub next_state : Text
  pub checkpoints : List CheckpointMutation
  pub events : List EventInput
  pub payload_hash : Text

abbrev pub is_blank : Text → Bool
is_blank [] = true
is_blank (x ∷ xs) = false

-- The keys of a Go map that is filled as the loop goes.
abbrev seen : Text → List Text → Bool
seen k = any (text_eq k)

valid_targets : List Text → List DeliveryTarget → Bool
valid_targets destinations [] = true
valid_targets destinations (t ∷ ts) =
    not (is_blank t.destination_id)
    && (not (ltb t.destination_revision 1)
        && (not (seen t.destination_id destinations)
            && valid_targets (t.destination_id ∷ destinations) ts))

valid_checkpoints : (Text → Bool) → List Text → List CheckpointMutation → Bool
valid_checkpoints json_valid sources [] = true
valid_checkpoints json_valid sources (c ∷ cs) =
    not (is_blank c.source)
    && (json_valid c.value
        && (not (seen c.source sources) && valid_checkpoints json_valid (c.source ∷ sources) cs))

valid_events : (Text → Text) → List Text → List Text → List EventInput → Bool
valid_events trim_space event_ids outbox_ids [] = true
valid_events trim_space event_ids outbox_ids (e ∷ es) =
    not (is_blank e.outbox_id || (is_blank e.event_id || is_blank (trim_space e.message.title)))
    && (not (seen e.event_id event_ids)
        && (not (seen e.outbox_id outbox_ids)
            && (valid_targets [] e.targets
                && valid_events trim_space (e.event_id ∷ event_ids) (e.outbox_id ∷ outbox_ids) es)))

-- A digest of 32 zero bytes, Go's zero value.
abbrev is_zero_hash : Text → Bool
is_zero_hash h = not (any (λ b. not (b == 0)) h)

module _ (p : Platform) where
  open p use {json_valid, trim_space}

  unfoldable pub validate_frame : Frame → Bool
  unfolding valid_targets valid_checkpoints valid_events
  validate_frame f =
      not (is_blank f.deployment_id || (ltb f.generation 1 || ltb f.sequence 1))
      && (not (ltb (length f.worker_token) 16)
          && (not (is_blank f.next_state)
              && (json_valid f.next_state
                  && (valid_checkpoints json_valid [] f.checkpoints
                      && (valid_events trim_space [] [] f.events
                          && not (is_zero_hash f.payload_hash))))))
