-- ===== src/Tests/Outbox.antt =====
-- The outbox at the sample queue.
use monitord.Base.{
  ℕ, ◌≡◌, refl, true, false, List, [], ◌∷◌, All, arith, ok, err, text_eq, eq_of_text_eq, codes,
}
use monitord.Base.Table.{find, update, count, select}
use monitord.Storage.Schema.{Store}
use monitord.Storage.Outbox.{claim_outbox, chosen, is_among, is_ready, mark_delivery_failed}
use monitord.Storage.Outbox.Claims.{HasUniqueRows, claim_outbox-exclusive}
use monitord.Storage.Outbox.Histories.{
  Call, claims, delivers, fails, retries, run, IsOutbox, run-IsOutbox,
}
use monitord.Tests.Samples.{queue}

abbrev worker : List ℕ
worker = 119 ∷ []

claimed : Store
unfolding claim_outbox update count select chosen text_eq codes
claimed = elim (claim_outbox worker (49 ∷ []) 10 30 8 queue) [ ok (out, s) ↦ s | err e ↦ queue ]

claimed_lem : claim_outbox worker (49 ∷ []) 10 30 8 queue ≡ ok ([], claimed)
unfolding claimed claim_outbox update count select chosen find text_eq codes
claimed_lem = refl

pub queue-keys : HasUniqueRows queue.outbox.deliveries
unfolding count select
queue-keys outbox destination = ground (
  arith,
  eq_of_text_eq (111 ∷ []) outbox,
  eq_of_text_eq (112 ∷ []) outbox,
  eq_of_text_eq (113 ∷ []) outbox,
)

pub queue-IsOutbox : IsOutbox queue
queue-IsOutbox = record {
  keys = queue-keys;
  rows = (
    record { owner = refl; expiry = refl; delivery = refl; death = refl },
    (
      record { owner = refl; expiry = refl; delivery = refl; death = refl },
      (record { owner = refl; expiry = refl; delivery = refl; death = refl }, tt),
    ),
  );
}

abbrev history : List Call
history =
    claims worker (49 ∷ []) 10 30 8
    ∷ delivers (112 ∷ []) (98 ∷ []) worker 20
    ∷ fails (111 ∷ []) (98 ∷ []) worker [] 20 25 1
    ∷ retries (111 ∷ []) (98 ∷ []) 30
    ∷ []

run-IsOutbox_example : IsOutbox (run queue history)
run-IsOutbox_example = run-IsOutbox queue history queue-IsOutbox

claim_outbox-exclusive_example :
    All
      (λ d. is_among (chosen 10 8 queue.outbox.deliveries) d ≡ true → is_ready 39 d ≡ false)
      claimed.outbox.deliveries
claim_outbox-exclusive_example =
    claim_outbox-exclusive worker (49 ∷ []) 10 30 8 39 queue claimed [] claimed_lem (omega arith)

settled : Store
unfolding mark_delivery_failed find update count select text_eq
settled = elim (mark_delivery_failed (112 ∷ []) (98 ∷ []) worker [] 20 25 1 queue) [
  | ok s ↦ s
  | err e ↦ queue
]
