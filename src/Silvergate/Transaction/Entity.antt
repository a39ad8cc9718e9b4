-- ===== src/Silvergate/Transaction/Entity.antt =====
-- services/silvergate/internal/transaction/entity.go and refund.go: what a transaction and a refund
-- are, and how their status may change. The values of uuid.New() and time.Now() are arguments.
use distributed_payment_mana.Prelude.{
  ℕ, ℤ, pos, String, Bool, Option, none, some, List, [], ◌∷◌, any, ◌==◌, if◌then◌else◌,
}
use distributed_payment_mana.Exec.{Result, ok, err}
use distributed_payment_mana.Postgres.{Uuid, Time}
use distributed_payment_mana.Silvergate.Errors.{TransactionError, invalid_transition}

pub data Status : Type 0 where
  authorized declined capture_pending captured capture_failed : Status
  voided partially_refunded refunded : Status

-- The text of a status, `string(s)`.
unfoldable pub status_string : Status → String
status_string authorized = "authorized"
status_string declined = "declined"
status_string capture_pending = "capture_pending"
status_string captured = "captured"
status_string capture_failed = "capture_failed"
status_string voided = "voided"
status_string partially_refunded = "partially_refunded"
status_string refunded = "refunded"

-- The texts differ, so they are compared by their number.
abbrev status_number : Status → ℕ
status_number authorized = 0
status_number declined = 1
status_number capture_pending = 2
status_number captured = 3
status_number capture_failed = 4
status_number voided = 5
status_number partially_refunded = 6
status_number refunded = 7

abbrev pub status_eq : Status → Status → Bool
status_eq s t = status_number s == status_number t

pub record Transaction : Type 0 where
  pub id : Uuid
  pub merchant_id : String
  pub order_ref : String
  pub amount : ℤ
  pub currency : String
  pub card_token : String
  pub status : Status
  pub decline_reason : String
  pub idempotency_key : String
  pub purchase_idempotency_key : String
  pub product_id : Option Uuid
  pub refunded_amount : ℤ
  pub created_at : Time
  pub updated_at : Time

unfoldable pub mark_product_purchase : String → Uuid → Transaction → Transaction
mark_product_purchase key product t = record t {
  purchase_idempotency_key = key;
  product_id = some product;
}

unfoldable pub new_authorized : Uuid → Time → String → String → ℤ → String → String → Transaction
new_authorized id now merchant_id order_ref amount currency card_token = record {
  id = id;
  merchant_id = merchant_id;
  order_ref = order_ref;
  amount = amount;
  currency = currency;
  card_token = card_token;
  status = authorized;
  decline_reason = "";
  idempotency_key = "";
  purchase_idempotency_key = "";
  product_id = none;
  refunded_amount = pos 0;
  created_at = now;
  updated_at = now;
}

unfoldable pub new_declined :
    Uuid → Time → String → String → ℤ → String → String → String → Transaction
new_declined id now merchant_id order_ref amount currency card_token reason = record {
  id = id;
  merchant_id = merchant_id;
  order_ref = order_ref;
  amount = amount;
  currency = currency;
  card_token = card_token;
  status = declined;
  decline_reason = reason;
  idempotency_key = "";
  purchase_idempotency_key = "";
  product_id = none;
  refunded_amount = pos 0;
  created_at = now;
  updated_at = now;
}

unfoldable pub mark_capture_pending :
    Time → String → Transaction → Result TransactionError Transaction
mark_capture_pending now key t =
    if status_eq t.status authorized
    then ok (record t { status = capture_pending; idempotency_key = key; updated_at = now })
    else err invalid_transition

unfoldable pub mark_captured : Time → Transaction → Result TransactionError Transaction
mark_captured now t =
    if status_eq t.status capture_pending
    then ok (record t { status = captured; updated_at = now })
    else err invalid_transition

unfoldable pub mark_capture_failed : Time → Transaction → Result TransactionError Transaction
mark_capture_failed now t =
    if status_eq t.status capture_pending
    then ok (record t { status = capture_failed; updated_at = now })
    else err invalid_transition

unfoldable pub mark_voided : Time → Transaction → Result TransactionError Transaction
mark_voided now t =
    if status_eq t.status authorized
    then ok (record t { status = voided; updated_at = now })
    else err invalid_transition

-- A missing key of the map has no allowed targets.
unfoldable pub valid_transitions : Status → List Status
valid_transitions authorized = capture_pending ∷ voided ∷ []
valid_transitions capture_pending = captured ∷ capture_failed ∷ []
valid_transitions captured = partially_refunded ∷ refunded ∷ []
valid_transitions partially_refunded = partially_refunded ∷ refunded ∷ []
valid_transitions _ = []

unfoldable pub can_transition_to : Status → Status → Bool
unfolding valid_transitions any
can_transition_to s target = any (λ a. status_eq a target) (valid_transitions s)

pub data RefundStatus : Type 0 where
  refund_pending refund_done refund_failed : RefundStatus

unfoldable pub refund_status_string : RefundStatus → String
refund_status_string refund_pending = "refund_pending"
refund_status_string refund_done = "refunded"
refund_status_string refund_failed = "refund_failed"

pub record Refund : Type 0 where
  pub id : Uuid
  pub transaction_id : Uuid
  pub amount : ℤ
  pub status : RefundStatus
  pub idempotency_key : String
  pub created_at : Time
  pub updated_at : Time

unfoldable pub new_refund_pending : Uuid → Time → Uuid → ℤ → String → Refund
new_refund_pending id now transaction_id amount key = record {
  id = id;
  transaction_id = transaction_id;
  amount = amount;
  status = refund_pending;
  idempotency_key = key;
  created_at = now;
  updated_at = now;
}

unfoldable pub mark_refunded : Time → Refund → Refund
mark_refunded now r = record r { status = refund_done; updated_at = now }

unfoldable pub mark_failed : Time → Refund → Refund
mark_failed now r = record r { status = refund_failed; updated_at = now }
