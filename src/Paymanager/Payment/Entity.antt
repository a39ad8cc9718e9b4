-- ===== src/Paymanager/Payment/Entity.antt =====
-- services/paymanager/internal/payment/entity.go and errors.go, and the error of
-- internal/eventstore/errors.go. A payment's identifier is a UUID, kept as a number.
use distributed_payment_mana.Prelude.{
  ℕ, ℤ, pos, String, Bool, Option, none, List, [], ◌∷◌, any, ◌==◌,
}
use distributed_payment_mana.Postgres.{Uuid, Time}

pub data Status : Type 0 where
  authorized declined capture_pending captured capture_failed : Status
  voided partially_refunded refunded : Status

abbrev status_number : Status → ℕ
status_number authorized = 0
status_number declined = 1
status_number capture_pending = 2
status_number captured = 3
status_number capture_failed = 4
status_number voided = 5
status_number partially_refunded = 6
status_number refunded = 7

abbrev pub status_eq : Status → Status → Bool
status_eq s t = status_number s == status_number t

-- A missing key of the map has no allowed targets.
unfoldable pub valid_transitions : Status → List Status
valid_transitions authorized = capture_pending ∷ voided ∷ []
valid_transitions capture_pending = captured ∷ capture_failed ∷ []
valid_transitions captured = partially_refunded ∷ refunded ∷ []
valid_transitions partially_refunded = partially_refunded ∷ refunded ∷ []
valid_transitions _ = []

unfoldable pub can_transition_to : Status → Status → Bool
unfolding valid_transitions any
can_transition_to s target = any (λ a. status_eq a target) (valid_transitions s)

pub record Payment : Type 0 where
  pub id : Uuid
  pub amount : ℤ
  pub currency : String
  pub card_token : String
  pub status : Status
  pub decline_reason : String
  pub provider_tx_id : String
  pub merchant_id : String
  pub refunded_amount : ℤ
  pub capture_at : Option Time
  pub created_at : Time
  pub updated_at : Time

unfoldable pub new_authorized : Uuid → Time → ℤ → String → String → String → String → Payment
new_authorized id now amount currency card_token provider_tx_id merchant_id = record {
  id = id;
  amount = amount;
  currency = currency;
  card_token = card_token;
  status = authorized;
  decline_reason = "";
  provider_tx_id = provider_tx_id;
  merchant_id = merchant_id;
  refunded_amount = pos 0;
  capture_at = none;
  created_at = now;
  updated_at = now;
}

unfoldable pub new_declined : Uuid → Time → ℤ → String → String → String → String → String → Payment
unfolding new_authorized
new_declined id now amount currency card_token provider_tx_id merchant_id reason =
    record (new_authorized id now amount currency card_token provider_tx_id merchant_id) {
      status = declined;
      decline_reason = reason;
    }

pub record CaptureWebhook : Type 0 where
  pub event : String
  pub transaction_id : String
  pub refund_id : String
  pub order_id : String
  pub merchant_id : String
  pub status : String
  pub amount : ℤ
  pub currency : String
  pub timestamp : String

pub record CreatePaymentRequest : Type 0 where
  pub amount : ℤ
  pub currency : String
  pub card_token : String
  pub capture_delay : String

-- The unique keys of services/paymanager/migrations.
pub data Key : Type 0 where
  payments_pkey events_pk idx_events_idempotency : Key

-- Any error that a call of the payment service returns.
pub data Failure : Type 0 where
  -- payment/errors.go
  not_found already_exists invalid_status refund_exceeds_amount : Failure
  -- eventstore.ErrEventAlreadyStored
  event_already_stored : Failure
  -- `invalid capture_delay: …`, `unknown webhook status: …`
  invalid_capture_delay unknown_webhook_status : Failure
  -- an error of the provider
  provider : Failure
  -- any other error of the database
  database : Failure
