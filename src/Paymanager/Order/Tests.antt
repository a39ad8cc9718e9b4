-- ===== src/Paymanager/Order/Tests.antt =====
-- Orders on concrete inputs.
use distributed_payment_mana.Paymanager.Order.Repo.{
  create_event, create_order_event, parse_order_rows, queried, update_order,
}
use distributed_payment_mana.Paymanager.Order.Entity.{can_be_updated_to}
use distributed_payment_mana.Paymanager.Events.{stored_checks}
use distributed_payment_mana.Paymanager.Order.Tables.{add_sink_event, sink_checks}
use distributed_payment_mana.Silvergate.Tables.{update_where}
use distributed_payment_mana.Prelude.{
  All, filter, ◌<◌, ◌↔◌, pos_part, ℕ, pos, true, false, none, [], ◌∷◌, any, length, ◌+◌, ◌≤◌, ◌≡◌,
  refl, ◌⊎◌, inl, List,
}
use distributed_payment_mana.Exec.{ok, err, ◌>>=◌}
use distributed_payment_mana.Postgres.{Env, new_uuid, now}
use distributed_payment_mana.Postgres.Session.{idle, in_transaction, statement, begun}
use distributed_payment_mana.Paymanager.Events.{StoredEvent, add_event}
use distributed_payment_mana.Paymanager.Events.Pages.{
  clamp_limit, selects, SinkEvent, EventQuery, event_page,
}
use distributed_payment_mana.Paymanager.Events.Pages.Ordering.{InOrder, event_page-InOrder}
use distributed_payment_mana.Paymanager.Events.Pages.Selection.{Selected, selects-Selected}
use distributed_payment_mana.Paymanager.Order.Entity.{
  updated, failed, success, status_eq, Status, Order, OrderUpdate, CaptureRequest, capture_success,
  Payload, of_update, Failure,
}
use distributed_payment_mana.Paymanager.Order.Tables.{Orders}
use distributed_payment_mana.Paymanager.Order.Repo.{get_orders}
use distributed_payment_mana.Paymanager.Order.Service
use distributed_payment_mana.Paymanager.Order.Service.{
  Outside, process_order_update, capture_payment, handled, get_order_by_id,
}
use distributed_payment_mana.Paymanager.Order.Service.Duplicates.{
  process_order_update_again, capture_payment_again,
}
use distributed_payment_mana.Paymanager.Order.Service.Guards.{
  call_of, capture_payment_calls, process_order_update_final,
}

abbrev calm : Env
calm = record {
  now = λ n. n;
  uuid = λ n. n + 100;
  fault = λ n. false;
  uuid_string = λ n. "uuid";
  format_time = λ n. "time";
}

abbrev shop : Outside
shop = record {
  env = calm;
  capture = λ n call. ok (record { provider_tx_id = "tx"; status = capture_success });
  is_uuid = λ s. true;
  encode_cursor = λ c. "cursor";
  decode_cursor = λ s. none;
}

abbrev order_in : Status → Order
order_in s = record {
  order_id = "o1";
  user_id = "u1";
  status = s;
  on_hold = false;
  hold_reason = none;
  created_at = 1;
  updated_at = 2;
}

abbrev update : OrderUpdate
update = record {
  provider_event_id = "ev";
  order_id = "o1";
  user_id = "u1";
  status = updated;
  updated_at = 3;
  created_at = 1;
  meta = [];
}

abbrev capture : CaptureRequest
capture = record { amount = 7; currency = "USD"; idempotency_key = "ev" }

abbrev stored : StoredEvent Payload
stored = record {
  id = 5;
  aggregate_type = "order";
  aggregate_id = "o1";
  event_type = "webhook_received";
  idempotency_key = "ev";
  payload = of_update update;
  created_at = 2;
}

abbrev world_of : Status → List (StoredEvent Payload) → Orders
world_of s events = record {
  tick = 0;
  store = record {
    tables = record { orders = order_in s ∷ []; order_events = []; events = events };
    status = idle;
  };
  sent = [];
  tasks = [];
}

-- The first delivery is handled, the second one is not.
first_delivery : handled (process_order_update shop update (world_of updated [])).0 ≡ true
unfolding handled process_order_update ◌>>=◌ in_transaction get_order_by_id get_orders statement now
    new_uuid Service.apply_update Service.change_order parse_order_rows queried any
    can_be_updated_to update_order Service.write_event create_event add_event stored_checks
    Service.sink_event create_order_event add_sink_event sink_checks update_where
first_delivery = refl

process_order_update_again_example :
    (e : Failure) × ((process_order_update shop update (world_of updated (stored ∷ []))).0 ≡ err e)
    × (handled (err e) ≡ false)
    × ((process_order_update shop update (world_of updated (stored ∷ []))).1.store.tables
        ≡ (world_of updated (stored ∷ [])).store.tables)
unfolding any
process_order_update_again_example =
    process_order_update_again shop update (world_of updated (stored ∷ [])) refl refl

capture_payment_again_example :
    (e : Failure) × ((capture_payment shop "o1" capture (world_of updated (stored ∷ []))).0 ≡ err e)
    × ((capture_payment shop "o1" capture (world_of updated (stored ∷ []))).1.store.tables
        ≡ (world_of updated (stored ∷ [])).store.tables)
unfolding any
capture_payment_again_example =
    capture_payment_again shop "o1" capture (world_of updated (stored ∷ [])) refl

capture_payment_calls_example :
    ((capture_payment shop "o1" capture (world_of updated [])).1.sent ≡ [])
    ⊎ ((o : Order) × ((get_order_by_id shop "o1" (begun (world_of updated []))).0 ≡ ok o)
        × (o.on_hold ≡ false)
        × (status_eq o.status success ≡ false)
        × (status_eq o.status failed ≡ false)
        × ((capture_payment shop "o1" capture (world_of updated [])).1.sent
            ≡ call_of o capture ∷ []))
capture_payment_calls_example = capture_payment_calls shop "o1" capture (world_of updated [])

-- An order that is fine is captured.
captured_once :
    (capture_payment shop "o1" capture (world_of updated [])).1.sent
    ≡ call_of (order_in updated) capture ∷ []
unfolding capture_payment ◌>>=◌ in_transaction get_order_by_id get_orders statement now new_uuid
    Service.apply_capture parse_order_rows queried any Service.capturable Service.ask_capture
    Service.recorded Service.write_event create_event add_event stored_checks Service.sink_event
    create_order_event add_sink_event sink_checks
captured_once = refl

process_order_update_final_example :
    (e : Failure) × ((process_order_update shop update (world_of success [])).0 ≡ err e)
    × ((process_order_update shop update (world_of success [])).1.store.tables
        ≡ (world_of success []).store.tables)
unfolding get_order_by_id get_orders ◌>>=◌ statement parse_order_rows queried any
process_order_update_final_example =
    process_order_update_final shop update (world_of success []) (order_in success) refl (inl refl)
      refl

abbrev row_at : ℕ → SinkEvent Payload
row_at n = record {
  event_id = n;
  owner_id = "o1";
  kind = "webhook_received";
  provider_event_id = "ev";
  content = of_update update;
  created_at = n;
}

abbrev newest : EventQuery
newest = record {
  owner_ids = [];
  kinds = [];
  time_from = none;
  time_to = none;
  limit = pos 2;
  cursor = "";
  sort_asc = false;
}

abbrev rows : List (SinkEvent Payload)
rows = row_at 3 ∷ row_at 1 ∷ row_at 4 ∷ row_at 2 ∷ []

two_newest : (event_page shop.encode_cursor newest none rows).items ≡ row_at 4 ∷ row_at 3 ∷ []
unfolding event_page
two_newest = refl

event_page-InOrder_example :
    let p = event_page shop.encode_cursor newest none rows in
    let all_rows = length (filter (selects newest none) rows) in
    All (Selected newest none) p.items
    × InOrder false p.items
    × (length p.items ≤ 1000)
    × ((length p.items ≤ 2) ⊎ ((pos_part newest.limit ≡ 0) × (length p.items ≤ 10)))
    × (((p.has_more ≡ true)
          × (length p.items ≡ clamp_limit newest.limit)
          × (clamp_limit newest.limit < all_rows))
        ⊎ ((p.has_more ≡ false) × (length p.items ≡ all_rows)))
event_page-InOrder_example = event_page-InOrder shop.encode_cursor newest none rows

selects-Selected_example : (selects newest none (row_at 3) ≡ true) ↔ Selected newest none (row_at 3)
selects-Selected_example = selects-Selected newest none (row_at 3)
