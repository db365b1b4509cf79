-- ===== src/Tests/Delivery.antt =====
-- The sender at the sample queue, with a limiter that lets every send through.
use monitord.Base.{
  ℕ, ◌*◌, ◌^◌, ◌/◌, ◌≡◌, refl, ◌⊎◌, true, false, none, some, [], ◌∷◌, arith, text_eq, ok, pos,
}
use monitord.Base.Table.{find, update, count, select}
use monitord.Storage.Schema.{Store, OutboxDelivery}
use monitord.Storage.Outbox.{
  ClaimedDelivery, is_row, mark_delivered, finish_delivery, set_delivered,
}
use monitord.Storage.Outbox.Histories.{IsOutbox}
use monitord.Daemon.Destination.{SendError, Library, response, reserve_destination, set_limiter}
use monitord.Daemon.Delivery.{
  SendConditions, Attempt, replied, attempt_error, send_one, settle_attempt,
}
use monitord.Daemon.Delivery.Backoff.{Failed, send_one-fails}
use monitord.Daemon.Delivery.Settled.{send_one-delivered}
use monitord.Daemon.Delivery.Process.{process}
use monitord.Daemon.Delivery.Refinement.{process-delivered}
use monitord.Tests.Samples.{queue, leased_row, delivered_row}
use monitord.Tests.Outbox.{queue-keys, queue-IsOutbox}

abbrev library : Library ℕ ℕ
library = record {
  decode = λ t. some (record { per_second = 1; burst = pos 1 });
  is_nan = λ r. false;
  is_inf = λ r. false;
  is_zero_rate = λ r. false;
  is_positive_rate = λ r. true;
  new_limiter = λ r b. 0;
  reserve_n = λ now l. record { is_ok = true; delay = 0; held = l; given_back = l };
  int64_n = λ n. n / 2;
}

abbrev claimed : ClaimedDelivery
claimed = record {
  outbox_id = 112 ∷ [];
  deployment_id = 100 ∷ [];
  deployment_name = [];
  destination_id = 98 ∷ [];
  destination_revision = 1;
  message_payload = [];
  destination_config = [];
  attempt_count = 0;
  lease_owner = 119 ∷ [];
  lease_expires_at = 40;
  created_at = 0;
}

-- An attempt that is settled in the twentieth millisecond.
abbrev with_attempt : Attempt → SendConditions
with_attempt a = record { reserved_at = 10; settled_at = 20 * 10 ^ 6; attempt = a }

-- HTTP 404, which is permanent.
abbrev not_found : SendError
not_found = record {
  message = [];
  classified = some (record { permanent = true; retry_after = pos 0 });
  is_canceled = false;
}

free_lem : (reserve_destination library claimed 10 []).0 ≡ ok 0
unfolding reserve_destination find
free_lem = refl

send_one-fails_example :
    (e : OutboxDelivery) × (find
        (is_row (112 ∷ []) (98 ∷ []))
        (send_one library claimed
          (with_attempt (replied (response [] 404 (pos 0))))
          []
          queue).2.outbox.deliveries
      ≡ some e)
    × Failed not_found (20 * 10 ^ 6) leased_row e
unfolding attempt_error find text_eq
send_one-fails_example =
    send_one-fails library claimed (with_attempt (replied (response [] 404 (pos 0)))) [] not_found
      queue leased_row (queue-keys (112 ∷ []) (98 ∷ [])) refl refl (omega arith)
      (λ n h. omega (arith, h)) free_lem refl

sent_row :
    (find
        (is_row (112 ∷ []) (98 ∷ []))
        (send_one library claimed (with_attempt (replied none)) [] queue).2.outbox.deliveries
      ≡ some (set_delivered 20 leased_row))
unfolding send_one settle_attempt attempt_error reserve_destination mark_delivered finish_delivery
    find update count select text_eq set_limiter
sent_row = refl

send_one-delivered_example :
    (find (is_row (112 ∷ []) (98 ∷ [])) queue.outbox.deliveries
      ≡ some (set_delivered 20 leased_row))
    ⊎ (((reserve_destination library claimed 10 []).0 ≡ ok 0)
        × (replied none ≡ replied none)
        × (is_row (112 ∷ []) (98 ∷ []) (set_delivered 20 leased_row) ≡ true))
send_one-delivered_example =
    send_one-delivered library claimed (with_attempt (replied none)) [] queue (112 ∷ []) (98 ∷ [])
      (set_delivered 20 leased_row) sent_row refl

batched : Store
batched =
    (process library (λ c. with_attempt (replied none)) (λ cs. cs) (λ ts. ts) (119 ∷ []) (49 ∷ [])
      (50 * 10 ^ 6) [] queue).2

process-delivered_example :
    IsOutbox batched
    × (find (is_row (113 ∷ []) (98 ∷ [])) batched.outbox.deliveries ≡ some delivered_row)
unfolding batched find text_eq
process-delivered_example =
    process-delivered library (λ c. with_attempt (replied none)) (λ cs. cs) (λ ts. ts) (119 ∷ [])
      (49 ∷ []) (50 * 10 ^ 6) [] queue (113 ∷ []) (98 ∷ []) delivered_row queue-IsOutbox refl refl
