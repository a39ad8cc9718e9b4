-- ===== src/Paymanager/Order/Repo.antt =====
-- services/paymanager/internal/order/orderrepo: pg.go and pg_event_sink.go; and CreateEvent of
-- internal/eventstore/pg.go on the events of orders. The replica that reads outside a transaction may
-- use is taken to be up to date.
use distributed_payment_mana.Prelude.{
  ◌-◌, ◌*◌, pos_part, String, Bool, true, false, Option, none, some, List, [], ◌∷◌, any, filter,
  sort_by, first_n, skip_n, ◌&&◌, str_eq, ltb, if◌then◌else◌,
}
use distributed_payment_mana.Exec.{Result, ok, err, map_err, lift, ◌>>=◌}
use distributed_payment_mana.Postgres.{Time, Env, DbError, unique_violation, now, new_uuid}
use distributed_payment_mana.Postgres.Session.{statement}
use distributed_payment_mana.Silvergate.Tables.{update_where}
use distributed_payment_mana.Paymanager.Events.{Key, orders_pkey, StoredEvent, add_event}
use distributed_payment_mana.Paymanager.Events.Pages.{
  SinkEvent, EventCursor, EventQuery, EventPage, in_list, event_page,
}
use distributed_payment_mana.Paymanager.Order.Entity.{
  Status, unknown, status_eq, Order, OrderUpdate, OrdersQuery, Pagination, Payload, Failure,
  already_exists, event_already_stored, stored_already, bad_row, bad_cursor, database,
}
use distributed_payment_mana.Paymanager.Order.Tables.{
  Store, Call, has_id, add_order, add_sink_event,
}

-- CreateOrder looks for "duplicate key" and "orders_pkey" in the text of the error.
abbrev pub on_create : DbError Key → Failure
on_create (unique_violation orders_pkey) = already_exists
on_create e = database

-- IsPgErrorUniqueViolation
abbrev pub on_conflict : Failure → DbError Key → Failure
on_conflict f (unique_violation k) = f
on_conflict f e = database

abbrev pub any_failure : DbError Key → Failure
any_failure e = database

abbrev pub in_statuses : List Status → Status → Bool
in_statuses [] s = true
in_statuses (x ∷ xs) s = any (λ y. status_eq y s) (x ∷ xs)

-- The WHERE clauses of buildOrdersQuery.
unfoldable pub selects_order : OrdersQuery → Order → Bool
selects_order q o =
    in_list q.ids o.order_id && in_list q.user_ids o.user_id && in_statuses q.statuses o.status

-- ORDER BY on one of the two times.
abbrev sort_key : String → Order → Time
sort_key column o = if str_eq column "created_at" then o.created_at else o.updated_at

abbrev sorts_before : String → String → Order → Order → Bool
sorts_before column direction a b =
    if str_eq direction "asc"
    then ltb (sort_key column a) (sort_key column b)
    else ltb (sort_key column b) (sort_key column a)

abbrev sorted : Option String → Option String → List Order → List Order
sorted (some column) (some direction) os = sort_by (sorts_before column direction) os
sorted _ _ os = os

-- LIMIT and OFFSET of a page; the controller admits positive numbers only.
abbrev paginated : Option Pagination → List Order → List Order
paginated none os = os
paginated (some p) os =
    first_n (pos_part p.page_size) (skip_n ((pos_part p.page_number - 1) * pos_part p.page_size) os)

-- The rows that the statement of GetOrders returns.
unfoldable pub queried : OrdersQuery → List Order → List Order
unfolding selects_order filter sort_by first_n skip_n
queried q os = paginated q.pagination (sorted q.sort_by q.sort_order (filter (selects_order q) os))

-- parseOrderRows: a status that the program does not know is an error.
abbrev known : Status → Bool
known (unknown s) = false
known s = true

unfoldable pub parse_order_rows : List Order → Result Failure (List Order)
parse_order_rows [] = ok []
parse_order_rows (o ∷ os) =
    let rest = parse_order_rows os in
    if known o.status then elim rest [ ok ps ↦ ok (o ∷ ps) | err e ↦ err e ] else err bad_row

abbrev with_orders :
    Store → Result (DbError Key) (List Order) → Result (DbError Key) (Unit {0} × Store)
with_orders s (ok os) = ok (tt, record s { orders = os })
with_orders s (err e) = err e

abbrev with_sink :
    Store
    → Result (DbError Key) (List (SinkEvent Payload))
    → Result (DbError Key) (Unit {0} × Store)
with_sink s (ok es) = ok (tt, record s { order_events = es })
with_sink s (err e) = err e

abbrev with_events :
    Store
    → Result (DbError Key) (List (StoredEvent Payload))
    → Result (DbError Key) (Unit {0} × Store)
with_events s (ok es) = ok (tt, record s { events = es })
with_events s (err e) = err e

module _ (db : Env) where
  unfoldable pub get_orders : OrdersQuery → Call (List Order)
  get_orders q = do
    rows ← map_err any_failure (statement db (λ (s : Store). ok (queried q s.orders, s)))
    lift (parse_order_rows rows)

  -- `is_uuid`: does the column user_id take this text?
  unfoldable pub create_order : (String → Bool) → OrderUpdate → Call (Unit {0})
  create_order is_uuid u = map_err on_create (
      statement db (λ (s : Store).
        if is_uuid u.user_id
        then with_orders s (
            add_order
              (record {
                order_id = u.order_id;
                user_id = u.user_id;
                status = u.status;
                on_hold = false;
                hold_reason = none;
                created_at = u.created_at;
                updated_at = u.updated_at;
              })
              s.orders)
        else err DbError.other))

  unfoldable pub update_order : OrderUpdate → Call (Unit {0})
  update_order u = map_err any_failure (
      statement db (λ (s : Store). ok (
        tt,
        record s {
          orders =
              update_where (has_id u.order_id)
                (λ o. record o { status = u.status; updated_at = u.updated_at }) s.orders;
        },
      )))

  -- The column is set to "NOW()", the time of the statement.
  unfoldable pub update_order_hold : String → Bool → Option String → Call (Unit {0})
  update_order_hold id held reason = do
    at ← now db
    map_err any_failure (
        statement db (λ (s : Store). ok (
          tt,
          record s {
            orders =
                update_where (has_id id)
                  (λ o. record o { on_hold = held; hold_reason = reason; updated_at = at })
                  s.orders;
          },
        )))

  -- CreateOrderEvent
  unfoldable pub create_order_event : String → String → String → Payload → Time → Call (Unit {0})
  create_order_event order_id kind provider_event_id content created_at = do
    id ← new_uuid db
    map_err (on_conflict event_already_stored) (
        statement db (λ (s : Store). with_sink s (
          add_sink_event
            (record {
              event_id = id;
              owner_id = order_id;
              kind = kind;
              provider_event_id = provider_event_id;
              content = content;
              created_at = created_at;
            })
            s)))

  -- (*PgEventStore).CreateEvent
  unfoldable pub create_event : String → String → String → String → Payload → Time → Call (Unit {0})
  create_event aggregate_type aggregate_id event_type key payload created_at = do
    id ← new_uuid db
    map_err (on_conflict stored_already) (
        statement db (λ (s : Store). with_events s (
          add_event
            (record {
              id = id;
              aggregate_type = aggregate_type;
              aggregate_id = aggregate_id;
              event_type = event_type;
              idempotency_key = key;
              payload = payload;
              created_at = created_at;
            })
            s.events)))

  abbrev decoded : (String → Option EventCursor) → String → Result Failure (Option EventCursor)
  decoded decode s =
      if str_eq s ""
      then ok none
      else elim (decode s) [ none ↦ err bad_cursor | some c ↦ ok (some c) ]

  -- GetOrderEvents
  unfoldable pub get_order_events :
      (EventCursor → String) → (String → Option EventCursor) → EventQuery → Call (EventPage Payload)
  get_order_events encode decode q = do
    c ← lift (decoded decode q.cursor)
    map_err any_failure (statement db (λ (s : Store). ok (event_page encode q c s.order_events, s)))
