-- ===== src/Daemon/Destination.antt =====
-- internal/daemon/outbox.go: the errors of a destination, with `deliveryHTTPError` of
-- internal/delivery/discord.go, and its rate limit, with `RateLimit` of internal/delivery/delivery.go.
-- JSON, golang.org/x/time/rate, the arithmetic of float64 and math/rand are the fields of `Library`.
use monitord.Base.{
  ℕ, ◌==◌, ltb, leb, Text, text_eq, codes, Bool, true, false, not, ◌&&◌, ◌||◌, Option, none, some,
  List, ◌∷◌, if◌then◌else◌, Result, ok, err, ℤ, pos, is_positive, is_zero,
}
use monitord.Base.Table.{find, delete}
use monitord.Storage.Outbox.{ClaimedDelivery}

-- What a `deliveryError` says of itself.
pub record Classified : Type 0 where
  pub permanent : Bool
  pub retry_after : ℤ

-- An error: its text, whether `errors.As` finds a `deliveryError` in it, and whether it is
-- context.Canceled.
pub record SendError : Type 0 where
  pub message : Text
  pub classified : Option Classified
  pub is_canceled : Bool

abbrev pub permanent_delivery_error : Text → SendError
permanent_delivery_error message = record {
  message = message;
  classified = some (record { permanent = true; retry_after = pos 0 });
  is_canceled = false;
}

-- `Permanent` of a `deliveryHTTPError`.
abbrev pub permanent_status : ℕ → Bool
permanent_status code =
    leb 400 code
    && ltb code 500
    && not (code == 408)
    && not (code == 409)
    && not (code == 425)
    && not (code == 429)

abbrev pub delivery_http_error : Text → ℕ → ℤ → SendError
delivery_http_error message code retry_after = record {
  message = message;
  classified = some (record { permanent = permanent_status code; retry_after = retry_after });
  is_canceled = false;
}

-- The end of `sendDiscord`: what a response comes to.
abbrev pub response : Text → ℕ → ℤ → Option SendError
response message code retry_after =
    if ltb code 200 || leb 300 code
    then some (delivery_http_error message code retry_after)
    else none

pub record RateLimit (F : Type 0) : Type 0 where
  pub per_second : F
  pub burst : ℤ

-- A reservation: `held` is the limiter with it, `given_back` the limiter once it is cancelled at once.
pub record Reservation (L : Type 0) : Type 0 where
  pub is_ok : Bool
  pub delay : ℕ
  pub held : L
  pub given_back : L

pub record Library (F L : Type 0) : Type 0 where
  pub decode : Text → Option (RateLimit F)
  pub is_nan : F → Bool
  pub is_inf : F → Bool
  pub is_zero_rate : F → Bool
  pub is_positive_rate : F → Bool
  pub new_limiter : F → ℤ → L
  pub reserve_n : ℕ → L → Reservation L
  pub int64_n : ℕ → ℕ

pub record Limiter (L : Type 0) : Type 0 where
  pub deployment_id : Text
  pub destination_id : Text
  pub revision : ℕ
  pub limiter : L

module _ {F L : Type 0} (lib : Library F L) where
  -- `RateLimit.Validate`, whether it returns nil.
  abbrev pub valid_rate : RateLimit F → Bool
  valid_rate l =
      not (lib.is_nan l.per_second || lib.is_inf l.per_second)
      && ((lib.is_zero_rate l.per_second && is_zero l.burst)
          || (lib.is_positive_rate l.per_second && is_positive l.burst))

  abbrev pub is_key : ClaimedDelivery → Limiter L → Bool
  is_key c k =
      text_eq k.deployment_id c.deployment_id
      && (text_eq k.destination_id c.destination_id && k.revision == c.destination_revision)

  abbrev pub limiter_of : ClaimedDelivery → RateLimit F → List (Limiter L) → L
  limiter_of c l limits = elim (find (is_key c) limits) [
    | none ↦ lib.new_limiter l.per_second l.burst
    | some k ↦ k.limiter
  ]

  unfoldable pub set_limiter : ClaimedDelivery → L → List (Limiter L) → List (Limiter L)
  unfolding delete
  set_limiter c limiter limits =
      record {
        deployment_id = c.deployment_id;
        destination_id = c.destination_id;
        revision = c.destination_revision;
        limiter = limiter;
      }
      ∷ delete (is_key c) limits

  -- What a reservation is worth: an error, or the delay, which takes it back unless it is none.
  abbrev pub reserved :
      ClaimedDelivery → Reservation L → List (Limiter L) → Result SendError ℕ × List (Limiter L)
  reserved c r limits =
      if not r.is_ok
      then (
        err (permanent_delivery_error (codes "destination rate limit cannot reserve one delivery")),
        set_limiter c r.held limits,
      )
      else if r.delay == 0
      then (ok 0, set_limiter c r.held limits)
      else (ok r.delay, set_limiter c r.given_back limits)

  unfoldable pub reserve_destination :
      ClaimedDelivery → ℕ → List (Limiter L) → Result SendError ℕ × List (Limiter L)
  unfolding find set_limiter
  reserve_destination c now limits = elim (lib.decode c.destination_config) [
    | none ↦ (err (permanent_delivery_error (codes "decode destination binding")), limits)
    | some l ↦
        if not (valid_rate l)
        then (err (permanent_delivery_error (codes "invalid destination rate limit")), limits)
        else if not (lib.is_positive_rate l.per_second)
        then (ok 0, limits)
        else reserved c (lib.reserve_n now (limiter_of c l limits)) limits
  ]
