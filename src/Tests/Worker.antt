-- ===== src/Tests/Worker.antt =====
-- The worker's commit of one frame, and its mentions.
use monitord.Base.{
  ◌≡◌, ◌≢◌, refl, ◌⊎◌, inl, inr, true, false, none, some, List, [], ◌∷◌, arith, ok, err, Text,
  text_eq, codes,
}
use monitord.Mentions.{
  Mention, user, parse_mention, parse_trimmed, mention_text, cut, of_parts, kind_of, is_snowflake,
  all_digits,
}
use monitord.Mentions.Printing.{parse_mention-mention_text}
use monitord.Worker.Protocol.{TransactionAck, TransactionFrame, valid_ack, valid_transaction}
use monitord.Worker.Coordinator.{
  Wire, TransactionCommit, Coordinator, Status, Input, arrives, acked, retries, finds_fatal,
  times_out, settled, same_identity, is_same, expected_of, framed, hash_fields, hash_frame,
  frame_of, commit, submit, settle, advance,
}
use monitord.Worker.Settlement.{Leaves, commit-Leaves}
use monitord.Worker.Progress.{commit-settled}
use monitord.Worker.Digest.{hash_frame-injective}

abbrev someone : Mention
someone = record { kind = user; id = 49 ∷ 50 ∷ 51 ∷ 52 ∷ 53 ∷ [] }

parse_mention-mention_text_example : parse_mention (λ t. t) (mention_text someone) ≡ some someone
unfolding parse_mention parse_trimmed cut of_parts kind_of is_snowflake all_digits text_eq codes
parse_mention-mention_text_example =
    parse_mention-mention_text (λ t. t) (117 ∷ 115 ∷ 101 ∷ 114 ∷ 58 ∷ 49 ∷ 50 ∷ 51 ∷ 52 ∷ 53 ∷ [])
      someone (λ t h. refl) refl

digest : Text
unfolding codes
digest = codes "00000000000000000000000000000000000000000000000000000000000000ff"

abbrev wire : Wire
wire = record {
  marshal_text = λ t. t;
  marshal_number = λ n. n ∷ [];
  marshal_raw = λ t. t;
  marshal_entries = λ cs. [];
  marshal_events = λ es. [];
  marshal_frame = λ f. f.next_state;
  sha256 = λ t. t;
  hex = λ t. digest;
  trim_space = λ t. t;
  json_valid = λ t. true;
}

abbrev worker : Coordinator
worker = record {
  hello = record { deployment_id = 100 ∷ []; generation = 2; worker_token = 116 ∷ [] };
  seq = 6;
  revision = 40;
  ack_ready = false;
  expected_ack = none;
  pending_ack = none;
  last_ack = none;
  fatal = none;
}

abbrev tx : TransactionCommit
tx = record { next_state = 49 ∷ []; checkpoints = []; events = [] }

ack : TransactionAck
unfolding codes
ack = record {
  deployment_id = 100 ∷ [];
  generation = 2;
  sequence = 7;
  payload_hash = digest;
  result_revision = 41;
  status = codes "accepted";
}

abbrev inputs : List Input
inputs = retries true ∷ arrives ack ∷ acked ∷ []

outcome : Coordinator × Status
unfolding commit submit settle advance
outcome = elim (commit wire tx true true true (arrives ack ∷ acked ∷ []) worker) [
  | ok out ↦ out
  | err e ↦ (worker, settled [])
]

outcome_lem : commit wire tx true true true (arrives ack ∷ acked ∷ []) worker ≡ ok outcome
unfolding outcome commit ack digest text_eq codes
outcome_lem = refl

valid_lem : valid_ack ack ≡ true
unfolding valid_ack ack digest text_eq codes
valid_lem = refl

same_lem : same_identity (expected_of (frame_of wire tx worker)) ack ≡ true
unfolding same_identity frame_of ack digest text_eq codes
same_lem = refl

-- A retry before the acknowledgement, and another one with a second copy before it is taken.
commit-settled_example :
    commit wire tx true true true
      (retries true
        ∷ finds_fatal
        ∷ arrives ack
        ∷ retries true
        ∷ arrives ack
        ∷ acked
        ∷ times_out
        ∷ [])
      worker
    ≡ ok (
      record worker { seq = 7; last_ack = some ack; revision = ack.result_revision },
      settled (49 ∷ []),
    )
unfolding frame_of is_same ack digest text_eq codes valid_transaction
commit-settled_example =
    commit-settled wire tx ack (retries true ∷ finds_fatal ∷ []) (retries true ∷ arrives ack ∷ [])
      (times_out ∷ []) worker refl (omega arith) refl valid_lem refl same_lem (refl, (tt, tt))
      (inl refl, (inr refl, tt))

commit-Leaves_example : Leaves (frame_of wire tx worker) worker outcome
commit-Leaves_example =
    commit-Leaves wire tx true true true (arrives ack ∷ acked ∷ []) worker outcome outcome_lem

abbrev frame : TransactionFrame
frame = record {
  deployment_id = 100 ∷ [];
  generation = 2;
  worker_token = 116 ∷ [];
  sequence = 7;
  base_state_revision = 40;
  next_state = 49 ∷ [];
  checkpoints = [];
  events = [];
  payload_hash = [];
}

abbrev sealed : TransactionFrame
sealed = record frame { payload_hash = 48 ∷ [] }

hash_frame-injective_example :
    (hash_fields wire frame ≡ hash_fields wire sealed)
    ⊎ ((framed (hash_fields wire frame) ≢ framed (hash_fields wire sealed))
        × (framed (hash_fields wire frame) ≡ framed (hash_fields wire sealed)))
unfolding hash_fields hash_frame
hash_frame-injective_example =
    hash_frame-injective wire frame sealed
      (
        omega arith,
        (
          omega arith,
          (
            omega arith,
            (omega arith, (omega arith, (omega arith, (omega arith, (omega arith, tt))))),
          ),
        ),
      )
      (
        omega arith,
        (
          omega arith,
          (
            omega arith,
            (omega arith, (omega arith, (omega arith, (omega arith, (omega arith, tt))))),
          ),
        ),
      )
      refl
