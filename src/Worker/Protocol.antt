-- ===== src/Worker/Protocol.antt =====
-- protocol.go and event.go: the frames of the worker protocol that a transaction uses, and their
-- validation. A validation says whether there is an error, not which.
use monitord.Base.{
  ℕ, ◌*◌, Text, codes, text_eq, Bool, true, false, not, ◌&&◌, ◌||◌, Option, none, some, List, [],
  ◌∷◌, ◌==◌, ltb, is_some, all_hex, length,
}
use monitord.Mentions.{parse_mention}

pub record EventField : Type 0 where
  pub name : Text
  pub value : Text
  pub is_inline : Bool

pub record Event : Type 0 where
  pub id : Text
  pub correction_of : Text
  pub severity : Text
  pub title : Text
  pub body : Text
  pub url : Text
  pub description : Text
  pub image : Text
  pub thumbnail : Text
  pub color : ℕ
  pub fields : List EventField
  pub footer : Text
  pub mentions : Option (List Text)

pub record TransactionAck : Type 0 where
  pub deployment_id : Text
  pub generation : ℕ
  pub sequence : ℕ
  pub payload_hash : Text
  pub result_revision : ℕ
  pub status : Text

-- One entry of the checkpoint map.
pub record Entry : Type 0 where
  pub source : Text
  pub raw : Text

pub record TransactionFrame : Type 0 where
  pub deployment_id : Text
  pub generation : ℕ
  pub worker_token : Text
  pub sequence : ℕ
  pub base_state_revision : ℕ
  pub next_state : Text
  pub checkpoints : List Entry
  pub events : List Event
  pub payload_hash : Text

abbrev pub is_empty : Text → Bool
is_empty [] = true
is_empty (x ∷ xs) = false

unfoldable pub valid_sha256 : Text → Bool
unfolding all_hex
valid_sha256 value = length value == 64 && all_hex value

unfoldable pub accepted_status : Text → Bool
accepted_status s = text_eq s (codes "accepted") || text_eq s (codes "replayed")

-- The "ack" branch of `DaemonFrame.Validate`.
unfoldable pub valid_ack : TransactionAck → Bool
unfolding valid_sha256 accepted_status
valid_ack a = not (
    is_empty a.deployment_id
    || (a.generation == 0
        || (a.sequence == 0
            || (not (valid_sha256 a.payload_hash) || not (accepted_status a.status)))))

valid_severity : Text → Bool
valid_severity s =
    text_eq s (codes "info") || (text_eq s (codes "warn") || text_eq s (codes "critical"))

module _ (trim_space : Text → Text) (json_valid : Text → Bool) where
  valid_mentions : List Text → Bool
  valid_mentions [] = true
  valid_mentions (m ∷ ms) = is_some (parse_mention trim_space m) && valid_mentions ms

  -- `for _, mention := range e.Mentions` finds nothing in a nil slice.
  abbrev given : Option (List Text) → List Text
  given none = []
  given (some ms) = ms

  unfoldable pub valid_event : Event → Bool
  unfolding valid_mentions valid_severity
  valid_event e =
      not (is_empty (trim_space e.id) || ltb 512 (length e.id))
      && ((is_empty e.correction_of
            || not (
                is_empty (trim_space e.correction_of)
                || (ltb 512 (length e.correction_of) || text_eq e.correction_of e.id)))
          && (not (is_empty (trim_space e.title) || ltb 0xFFFFFF e.color)
              && (valid_mentions (given e.mentions)
                  && (is_empty e.severity || valid_severity e.severity))))

  valid_events : List Event → Bool
  valid_events [] = true
  valid_events (e ∷ es) = valid_event e && valid_events es

  valid_entries : List Entry → Bool
  valid_entries [] = true
  valid_entries (c ∷ cs) =
      not (
        is_empty c.source
        || (ltb 128 (length c.source)
            || (ltb (256 * 1024) (length c.raw) || not (json_valid c.raw))))
      && valid_entries cs

  -- The "transaction" branch of `WorkerFrame.Validate`.
  unfoldable pub valid_transaction : TransactionFrame → Bool
  unfolding valid_entries valid_events valid_event valid_sha256
  valid_transaction t =
      not (
        is_empty t.deployment_id
        || (t.generation == 0
            || (t.sequence == 0
                || (is_empty t.worker_token
                    || (not (valid_sha256 t.payload_hash)
                        || (is_empty t.next_state || not (json_valid t.next_state)))))))
      && (not (ltb (2 * 1024 * 1024) (length t.next_state))
          && (not (ltb 128 (length t.checkpoints))
              && (valid_entries t.checkpoints
                  && (not (ltb 256 (length t.events)) && valid_events t.events))))
