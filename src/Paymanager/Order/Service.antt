-- ===== src/Paymanager/Order/Service.antt =====
-- services/paymanager/internal/order/service.go, and what ordercontroller/kafka.go does with the
-- error of ProcessOrderUpdate. Logging is left out. The provider is a parameter.
mod Effects
pub mod Duplicates
pub mod Guards
use distributed_payment_mana.Prelude.{
  ℕ, ℤ, pos, String, Bool, true, false, Option, none, some, List, [], ◌∷◌, ◌++◌, not, ◌||◌, leb_ℤ,
  if◌then◌else◌,
}
use distributed_payment_mana.Exec.{
  Exec, Result, ok, err, attempt, lift, pure, raise, modify, ◌>>=◌, ◌>>◌,
}
use distributed_payment_mana.Postgres.{Env, Time, repeatable_read, ticked, now, new_uuid}
use distributed_payment_mana.Postgres.Session.{in_transaction}
use distributed_payment_mana.Paymanager.Events.Pages.{EventCursor, EventQuery, EventPage}
use distributed_payment_mana.Paymanager.Order.Entity.{
  Status, created, failed, success, status_eq, can_be_updated_to, Order, OrderUpdate, OrdersQuery,
  HoldAction, set, clear, HoldReason, reason_string, HoldRequest, HoldResponse, CaptureRequest,
  CaptureStatus, capture_success, capture_failed, CaptureResponse, Payload, of_update, of_hold,
  of_capture, of_response, Failure, not_found, already_exists, invalid_status, on_hold,
  in_final_status, event_already_stored, stored_already, invalid_hold, provider, database,
}
use distributed_payment_mana.Paymanager.Order.Tables.{ProviderCall, Orders, Call}
use distributed_payment_mana.Paymanager.Order.Repo.{
  get_orders, create_order, update_order, update_order_hold, create_order_event, create_event,
  get_order_events,
}

-- gateway.CaptureResult
pub record CaptureResult : Type 0 where
  pub provider_tx_id : String
  pub status : CaptureStatus

-- An error of the provider carries nothing that the program reads.
pub data Refusal : Type 0 where
  refusal : Refusal

-- What the service is connected to: `is_uuid` says whether the database takes a text as a UUID,
-- and the cursors are JSON in base64.
pub record Outside : Type 0 where
  pub env : Env
  pub capture : ℕ → ProviderCall → Result Refusal CaptureResult
  pub is_uuid : String → Bool
  pub encode_cursor : EventCursor → String
  pub decode_cursor : String → Option EventCursor

abbrev of_provider : {A : Type 0} → Result Refusal A → Result Failure A
of_provider (ok a) = ok a
of_provider (err e) = err provider

-- s.provider.CapturePayment: the call is made whatever the answer is.
unfoldable pub ask_capture : Outside → ProviderCall → Call CaptureResult
ask_capture out call w =
    (of_provider (out.capture w.tick call), record (ticked w) { sent = w.sent ++ call ∷ [] })

abbrev pub query_for : String → OrdersQuery
query_for id = record {
  ids = id ∷ [];
  user_ids = [];
  statuses = [];
  pagination = none;
  sort_by = none;
  sort_order = none;
}

abbrev pub first_order : List Order → Result Failure Order
first_order [] = err not_found
first_order (o ∷ os) = ok o

-- An event that is stored already is no error of writeEvent.
abbrev pub stored_or : Result Failure (Unit {0}) → Result Failure (Unit {0})
stored_or (ok _) = ok tt
stored_or (err stored_already) = ok tt
stored_or (err e) = err e

abbrev is_set : HoldAction → Bool
is_set set = true
is_set clear = false

abbrev hold_reason_of : HoldAction → Option HoldReason → Option String
hold_reason_of set none = none
hold_reason_of set (some r) = some (reason_string r)
hold_reason_of clear r = none

abbrev hold_kind : HoldAction → String
hold_kind set = "hold_set"
hold_kind clear = "hold_cleared"

abbrev pub result_kind : CaptureStatus → String
result_kind capture_success = "capture_completed"
result_kind capture_failed = "capture_failed"

-- (*HoldRequest).Validate
abbrev validate_hold : HoldAction → Option HoldReason → Result Failure (Unit {0})
validate_hold set none = err invalid_hold
validate_hold a r = ok tt

-- What CapturePayment asks of the order.
unfoldable pub capturable : Order → Result Failure (Unit {0})
capturable o =
    if o.on_hold
    then err on_hold
    else if status_eq o.status success || status_eq o.status failed
    then err in_final_status
    else ok tt

abbrev pub response_of : Order → CaptureRequest → CaptureResult → Time → CaptureResponse
response_of o req result at = record {
  order_id = o.order_id;
  amount = req.amount;
  currency = req.currency;
  status = result.status;
  provider_tx_id = result.provider_tx_id;
  captured_at = at;
}

module _ (out : Outside) where
  unfoldable pub get_order_by_id : String → Call Order
  get_order_by_id id = do os ← get_orders out.env (query_for id); lift (first_order os)

  unfoldable pub write_event : String → String → String → Payload → Call (Unit {0})
  write_event order_id kind key payload = do
    at ← now out.env
    written ← attempt (create_event out.env "order" order_id kind key payload at)
    lift (stored_or written)

  unfoldable pub sink_event : String → String → String → Payload → Call (Unit {0})
  sink_event order_id kind key payload = do
    at ← now out.env
    create_order_event out.env order_id kind key payload at

  unfoldable pub change_order : OrderUpdate → Call (Unit {0})
  change_order u = do
    o ← get_order_by_id u.order_id
    lift (if can_be_updated_to o.status u.status then ok tt else err invalid_status)
    update_order out.env u

  -- The transaction of ProcessOrderUpdate.
  unfoldable pub apply_update : OrderUpdate → Call (Unit {0})
  apply_update u = do
    (if status_eq u.status created then create_order out.env out.is_uuid u else change_order u)
    write_event u.order_id "webhook_received" u.provider_event_id (of_update u)

  unfoldable pub process_order_update : OrderUpdate → Call (Unit {0})
  process_order_update u = do
    in_transaction out.env database repeatable_read (apply_update u)
    sink_event u.order_id "webhook_received" u.provider_event_id (of_update u)

  -- The transaction of UpdateOrderHold.
  unfoldable pub apply_hold : String → HoldRequest → Call HoldResponse
  apply_hold id req = do
    o ← get_order_by_id id
    update_order_hold out.env o.order_id (is_set req.action) (hold_reason_of req.action req.reason)
    u ← get_order_by_id o.order_id
    key ← new_uuid out.env
    write_event id (hold_kind req.action) (out.env.uuid_string key) (of_hold req)
    pure (record {
      order_id = u.order_id;
      on_hold = u.on_hold;
      reason = u.hold_reason;
      updated_at = u.updated_at;
    })

  -- An error of the sink is only logged.
  abbrev pub logged : Call (Unit {0}) → Call (Unit {0})
  logged m = attempt m >> pure tt

  unfoldable pub hold_order : String → HoldRequest → Call HoldResponse
  hold_order id req = do
    lift (validate_hold req.action req.reason)
    response ← in_transaction out.env database repeatable_read (apply_hold id req)
    key ← new_uuid out.env
    logged (sink_event id (hold_kind req.action) (out.env.uuid_string key) (of_hold req))
    pure response

  -- CapturePayment from the answer of the provider to the end of its transaction.
  unfoldable pub recorded : String → CaptureRequest → Order → CaptureResult → Call CaptureResponse
  recorded id req o result = do
    at ← now out.env
    let response = response_of o req result at
    write_event id "capture_requested" req.idempotency_key (of_capture req)
    write_event id (result_kind result.status) result.provider_tx_id (of_response response)
    pure response

  -- The transaction of CapturePayment.
  unfoldable pub apply_capture : String → CaptureRequest → Call CaptureResponse
  apply_capture id req = do
    o ← get_order_by_id id
    lift (capturable o)
    result ← ask_capture out (record {
      order_id = o.order_id;
      amount = req.amount;
      currency = req.currency;
      idempotency_key = req.idempotency_key;
    })
    recorded id req o result

  unfoldable pub capture_payment : String → CaptureRequest → Call CaptureResponse
  capture_payment id req = do
    response ← in_transaction out.env database repeatable_read (apply_capture id req)
    logged (sink_event id "capture_requested" req.idempotency_key (of_capture req))
    logged
        (sink_event id (result_kind response.status) response.provider_tx_id (of_response response))
    pure response

  -- GetEvents
  unfoldable pub get_events : EventQuery → Call (EventPage Payload)
  get_events q =
      get_order_events out.env out.encode_cursor out.decode_cursor
        (record q { limit = if leb_ℤ q.limit (pos 0) then pos 10 else q.limit })

-- HandleMessage: whether the message is done with.
unfoldable pub handled : Result Failure (Unit {0}) → Bool
handled (ok _) = true
handled (err event_already_stored) = true
handled (err already_exists) = true
handled (err e) = false
