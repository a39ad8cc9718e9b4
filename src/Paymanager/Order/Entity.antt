-- ===== src/Paymanager/Order/Entity.antt =====
-- services/paymanager/internal/order/entity.go, events.go and errors.go.
use distributed_payment_mana.Prelude.{
  ℕ, ℤ, String, Bool, true, false, Option, none, some, List, [], ◌∷◌, any, ◌==◌, ◌&&◌, str_eq,
  if◌then◌else◌,
}
use distributed_payment_mana.Postgres.{Time}

-- A `Status` is any text; these are the four that the program knows, and the others.
pub data Status : Type 0 where
  created updated failed success : Status
  unknown : String → Status

abbrev status_number : Status → ℕ
status_number created = 0
status_number updated = 1
status_number failed = 2
status_number success = 3
status_number (unknown s) = 4

abbrev pub status_eq : Status → Status → Bool
status_eq (unknown s) (unknown t) = str_eq s t
status_eq s t = status_number s == status_number t

unfoldable pub can_be_updated_to : Status → Status → Bool
unfolding any
can_be_updated_to created new = any (λ s. status_eq s new) (updated ∷ failed ∷ success ∷ [])
can_be_updated_to updated new = any (λ s. status_eq s new) (updated ∷ failed ∷ success ∷ [])
can_be_updated_to _ new = false

-- NewStatus: `none` is the error.
unfoldable pub new_status : Status → Option Status
new_status (unknown s) = none
new_status s = some s

pub record Order : Type 0 where
  pub order_id : String
  pub user_id : String
  pub status : Status
  pub on_hold : Bool
  pub hold_reason : Option String
  pub created_at : Time
  pub updated_at : Time

pub record OrderUpdate : Type 0 where
  pub provider_event_id : String
  pub order_id : String
  pub user_id : String
  pub status : Status
  pub updated_at : Time
  pub created_at : Time
  pub meta : List (String × String)

pub record Pagination : Type 0 where
  pub page_size : ℤ
  pub page_number : ℤ

pub record OrdersQuery : Type 0 where
  pub ids : List String
  pub user_ids : List String
  pub statuses : List Status
  pub pagination : Option Pagination
  pub sort_by : Option String
  pub sort_order : Option String

abbrev is_one_of : String → String → Option String → Bool
is_one_of a b none = true
is_one_of a b (some s) = if str_eq s a then true else str_eq s b

-- (*OrdersQuery).Validate: whether there is no error.
unfoldable pub validate_query : OrdersQuery → Bool
validate_query q =
    is_one_of "created_at" "updated_at" q.sort_by && is_one_of "asc" "desc" q.sort_order

-- The request's binding admits these two only.
pub data HoldAction : Type 0 where
  set clear : HoldAction

pub data HoldReason : Type 0 where
  manual_review risk : HoldReason

unfoldable pub reason_string : HoldReason → String
reason_string manual_review = "manual_review"
reason_string risk = "risk"

pub record HoldRequest : Type 0 where
  pub action : HoldAction
  pub reason : Option HoldReason

pub record HoldResponse : Type 0 where
  pub order_id : String
  pub on_hold : Bool
  pub reason : Option String
  pub updated_at : Time

-- A float64 by its 64 bits: amounts are only passed on.
abbrev pub Float64 : Type 0
Float64 = ℕ

pub record CaptureRequest : Type 0 where
  pub amount : Float64
  pub currency : String
  pub idempotency_key : String

pub data CaptureStatus : Type 0 where
  capture_success capture_failed : CaptureStatus

pub record CaptureResponse : Type 0 where
  pub order_id : String
  pub amount : Float64
  pub currency : String
  pub status : CaptureStatus
  pub provider_tx_id : String
  pub captured_at : Time

-- The JSON of an event, by the value that it is made from.
pub data Payload : Type 0 where
  of_update : OrderUpdate → Payload
  of_hold : HoldRequest → Payload
  of_capture : CaptureRequest → Payload
  of_response : CaptureResponse → Payload

-- Any error that a call of the order service returns.
pub data Failure : Type 0 where
  -- order/errors.go
  not_found already_exists invalid_status on_hold in_final_status : Failure
  invalid_query event_already_stored : Failure
  -- eventstore.ErrEventAlreadyStored
  stored_already : Failure
  -- `invalid hold request: …`, `invalid status in database: …`, `decode cursor: …`
  invalid_hold bad_row bad_cursor : Failure
  -- an error of the provider
  provider : Failure
  -- any other error of the database
  database : Failure
