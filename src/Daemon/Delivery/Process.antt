-- ===== src/Daemon/Delivery/Process.antt =====
-- internal/daemon/outbox.go, `process`: one batch. The goroutines of a batch share the limiters, which
-- only their reservations touch, and the tables, which only their settlements touch: `order` is the
-- order of the reservations and `reorder` that of the settlements, whatever they are.
use monitord.Base.{ℕ, Text, List, [], ◌∷◌, length, Result, ok, err}
use monitord.Storage.Schema.{Error, Store}
use monitord.Storage.Outbox.{ClaimedDelivery, claim_outbox}
use monitord.Daemon.Destination.{SendError, Library, Limiter, reserve_destination}
use monitord.Daemon.Delivery.{
  SendConditions, Report, to_ms, outbox_lease, outbox_batch, after_reserve,
}

pub record Turn : Type 0 where
  pub claimed : ClaimedDelivery
  pub conditions : SendConditions
  pub reservation : Result SendError ℕ

module _ {F L : Type 0} (lib : Library F L) where
  unfoldable pub settle_all : List Turn → Store → List Report × Store
  settle_all [] s = ([], s)
  settle_all (t ∷ ts) s =
      let out = after_reserve lib t.claimed t.conditions t.reservation s in
      let rest = settle_all ts out.1 in (out.0 ∷ rest.0, rest.1)

module _ {F L : Type 0} (lib : Library F L) (conditions : ClaimedDelivery → SendConditions) where
  unfoldable pub reserve_all :
      List ClaimedDelivery → List (Limiter L) → List Turn × List (Limiter L)
  unfolding reserve_destination
  reserve_all [] limits = ([], limits)
  reserve_all (c ∷ cs) limits =
      let r = reserve_destination lib c (conditions c).reserved_at limits in
      let rest = reserve_all cs r.1 in
      (record { claimed = c; conditions = conditions c; reservation = r.0 } ∷ rest.0, rest.1)

  -- What follows the claim.
  unfoldable pub send_all :
      (List ClaimedDelivery → List ClaimedDelivery)
      → (List Turn → List Turn)
      → List (Limiter L)
      → Store
      → Result Error (List ClaimedDelivery × Store)
      → Result Error (ℕ × List Report) × List (Limiter L) × Store
  unfolding reserve_all settle_all
  send_all order reorder limits s (err e) = (err e, limits, s)
  send_all order reorder limits s (ok (claimed, t)) =
      let turns = reserve_all (order claimed) limits in
      let out = settle_all lib (reorder turns.0) t in (ok (length claimed, out.0), turns.1, out.1)

  unfoldable pub process :
      (List ClaimedDelivery → List ClaimedDelivery)
      → (List Turn → List Turn)
      → Text
      → Text
      → ℕ
      → List (Limiter L)
      → Store
      → Result Error (ℕ × List Report) × List (Limiter L) × Store
  unfolding claim_outbox send_all
  process order reorder owner claim_id now limits s =
      send_all order reorder limits s
        (claim_outbox owner claim_id (to_ms now) (to_ms outbox_lease) outbox_batch s)
