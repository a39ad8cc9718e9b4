-- ===== src/Paymanager/Payment/Tables.antt =====
-- The tables `payments` and `events` of services/paymanager/migrations, with their constraints. A
-- row of `payments` has `none` where the column is NULL.
use distributed_payment_mana.Prelude.{
  ℤ, String, Bool, Option, List, ◌==◌, ◌&&◌, str_eq, leb, not, count, all, if◌then◌else◌,
}
use distributed_payment_mana.Exec.{Result, ok, err}
use distributed_payment_mana.Postgres.{Uuid, Time, DbError, unique_violation, check_violation}
use distributed_payment_mana.Silvergate.Tables.{clashes, is_bigint}
use distributed_payment_mana.Paymanager.Payment.Entity.{
  Status, Key, payments_pkey, events_pk, idx_events_idempotency,
}

pub record PaymentRow : Type 0 where
  pub id : Uuid
  pub amount : ℤ
  pub currency : String
  pub card_token : String
  pub status : Status
  pub decline_reason : Option String
  pub provider_tx_id : Option String
  pub merchant_id : String
  pub refunded_amount : ℤ
  pub capture_at : Option Time
  pub created_at : Time
  pub updated_at : Time

-- Event and NewEvent of internal/eventstore/event.go; every payload here is `{}`.
pub record EventRow : Type 0 where
  pub id : Uuid
  pub aggregate_type : String
  pub aggregate_id : Uuid
  pub event_type : String
  pub idempotency_key : String
  pub created_at : Time

pub record Store : Type 0 where
  pub payments : List PaymentRow
  pub events : List EventRow

unfoldable pub payment_checks : PaymentRow → Bool
payment_checks r = is_bigint r.amount && is_bigint r.refunded_amount && count r.currency == 3

abbrev payments_clash_id : PaymentRow → PaymentRow → Bool
payments_clash_id r s = r.id == s.id

unfoldable pub put_payments : List PaymentRow → Store → Result (DbError Key) Store
put_payments rows s =
    if not (all payment_checks rows)
    then err check_violation
    else if clashes payments_clash_id rows
    then err (unique_violation payments_pkey)
    else ok (record s { payments = rows })

-- VARCHAR(64) and VARCHAR(255)
unfoldable pub event_checks : EventRow → Bool
event_checks r = leb (count r.event_type) 64 && leb (count r.idempotency_key) 255

abbrev events_clash_id : EventRow → EventRow → Bool
events_clash_id r s = r.id == s.id

abbrev pub events_clash_key : EventRow → EventRow → Bool
events_clash_key r s =
    str_eq r.aggregate_type s.aggregate_type
    && r.aggregate_id == s.aggregate_id
    && str_eq r.idempotency_key s.idempotency_key

unfoldable pub put_events : List EventRow → Store → Result (DbError Key) Store
put_events rows s =
    if not (all event_checks rows)
    then err check_violation
    else if clashes events_clash_id rows
    then err (unique_violation events_pk)
    else if clashes events_clash_key rows
    then err (unique_violation idx_events_idempotency)
    else ok (record s { events = rows })
