-- ===== src/Paymanager/Events.antt =====
-- The events of services/paymanager: the table `events` of internal/eventstore, and the two event
-- sinks, order_events and dispute_events, whose rows and pages have one form
-- (orderrepo/pg_event_sink.go, disputerepo/pg_event_sink.go). What a row holds as JSON is the type
-- `P`.
pub mod Pages
use distributed_payment_mana.Prelude.{
  ℕ, String, Bool, List, [], ◌∷◌, ◌++◌, ◌==◌, ◌&&◌, str_eq, leb, not, count, all, any,
  if◌then◌else◌,
}
use distributed_payment_mana.Exec.{Result, ok, err}
use distributed_payment_mana.Postgres.{Uuid, Time, DbError, unique_violation, check_violation}
use distributed_payment_mana.Silvergate.Tables.{clashes}

-- The unique keys of the tables of orders, disputes and events.
pub data Key : Type 0 where
  orders_pkey order_events_pkey idx_order_events_idempotency : Key
  disputes_pkey dispute_events_pk idx_dispute_events_idempotency : Key
  events_pk idx_events_idempotency : Key

-- Event and NewEvent of internal/eventstore/event.go
pub record StoredEvent (P : Type 0) : Type 0 where
  pub id : Uuid
  pub aggregate_type : String
  pub aggregate_id : String
  pub event_type : String
  pub idempotency_key : String
  pub payload : P
  pub created_at : Time

module _ {P : Type 0} where
  -- VARCHAR(32), VARCHAR(255), VARCHAR(64), VARCHAR(255)
  unfoldable pub stored_checks : StoredEvent P → Bool
  stored_checks e =
      leb (count e.aggregate_type) 32
      && leb (count e.aggregate_id) 255
      && leb (count e.event_type) 64
      && leb (count e.idempotency_key) 255

  abbrev same_id : StoredEvent P → StoredEvent P → Bool
  same_id a b = a.id == b.id

  abbrev pub same_event : StoredEvent P → StoredEvent P → Bool
  same_event a b =
      str_eq a.aggregate_type b.aggregate_type
      && str_eq a.aggregate_id b.aggregate_id
      && str_eq a.idempotency_key b.idempotency_key

  -- The table `events` with one row more, if its constraints allow it.
  unfoldable pub add_event :
      StoredEvent P → List (StoredEvent P) → Result (DbError Key) (List (StoredEvent P))
  add_event e events =
      if not (stored_checks e)
      then err check_violation
      else if any (λ a. same_id a e) events
      then err (unique_violation events_pk)
      else if any (λ a. same_event a e) events
      then err (unique_violation idx_events_idempotency)
      else ok (events ++ e ∷ [])
