-- ===== src/Paymanager/Order/Tables.antt =====
-- The tables `orders`, `order_events` and `events` of services/paymanager/migrations, as orders use
-- them, and the running service.
use distributed_payment_mana.Prelude.{
  String, Bool, Option, none, some, List, [], ◌∷◌, ◌++◌, ◌==◌, ◌&&◌, str_eq, leb, not, count, any,
  true, if◌then◌else◌,
}
use distributed_payment_mana.Exec.{Exec, Result, ok, err}
use distributed_payment_mana.Postgres.{
  World, DbError, unique_violation, check_violation, foreign_key_violation,
}
use distributed_payment_mana.Postgres.Session.{Session}
use distributed_payment_mana.Paymanager.Events.{
  Key, orders_pkey, order_events_pkey, idx_order_events_idempotency, StoredEvent,
}
use distributed_payment_mana.Paymanager.Events.Pages.{SinkEvent}
use distributed_payment_mana.Paymanager.Order.Entity.{Order, Payload, Failure, Float64}

-- The columns of `orders` are the fields of an order.
pub record Store : Type 0 where
  pub orders : List Order
  pub order_events : List (SinkEvent Payload)
  pub events : List (StoredEvent Payload)

-- gateway.CaptureRequest, as it was passed to the provider.
pub record ProviderCall : Type 0 where
  pub order_id : String
  pub amount : Float64
  pub currency : String
  pub idempotency_key : String

-- The service keeps the calls that it has made of its provider; it starts no goroutines.
abbrev pub Orders : Type 0
Orders = World (Session Store) ProviderCall (Unit {0})

abbrev pub Call : Type 0 → Type 0
Call A = Exec Orders Failure A

abbrev pub Sql : Type 0 → Type 0
Sql A = Exec Orders (DbError Key) A

abbrev short : Option String → Bool
short none = true
short (some s) = leb (count s) 255

-- VARCHAR(255); a user_id that is no UUID is refused with the statement that has it.
unfoldable pub order_checks : Order → Bool
order_checks o = leb (count o.order_id) 255 && short o.hold_reason

abbrev pub has_id : String → Order → Bool
has_id id o = str_eq o.order_id id

unfoldable pub add_order : Order → List Order → Result (DbError Key) (List Order)
add_order o orders =
    if not (order_checks o)
    then err check_violation
    else if any (has_id o.order_id) orders
    then err (unique_violation orders_pkey)
    else ok (orders ++ o ∷ [])

unfoldable pub sink_checks : SinkEvent Payload → Bool
sink_checks e = leb (count e.kind) 32 && leb (count e.provider_event_id) 255

abbrev same_sink_id : SinkEvent Payload → SinkEvent Payload → Bool
same_sink_id a b = a.event_id == b.event_id

abbrev pub same_sink_event : SinkEvent Payload → SinkEvent Payload → Bool
same_sink_event a b = str_eq a.owner_id b.owner_id && str_eq a.provider_event_id b.provider_event_id

-- order_id REFERENCES orders(id)
unfoldable pub add_sink_event :
    SinkEvent Payload → Store → Result (DbError Key) (List (SinkEvent Payload))
add_sink_event e s =
    if not (sink_checks e)
    then err check_violation
    else if any (λ a. same_sink_id a e) s.order_events
    then err (unique_violation order_events_pkey)
    else if any (λ a. same_sink_event a e) s.order_events
    then err (unique_violation idx_order_events_idempotency)
    else if not (any (has_id e.owner_id) s.orders)
    then err foreign_key_violation
    else ok (s.order_events ++ e ∷ [])
