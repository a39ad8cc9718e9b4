-- ===== src/Paymanager/Payment/Repo.antt =====
-- services/paymanager/internal/payment/paymentrepo/pg.go and internal/eventstore/pg.go. The replica
-- that reads outside a transaction may use is taken to be up to date.
use distributed_payment_mana.Prelude.{
  ℕ, ℤ, String, Bool, Option, none, some, [], ◌∷◌, ◌++◌, ◌==◌, str_eq, if◌then◌else◌,
}
use distributed_payment_mana.Exec.{Exec, Result, ok, err, map_err, lift, pure, ◌>>=◌}
use distributed_payment_mana.Postgres.{
  Uuid, Time, Env, World, DbError, unique_violation, statement, now, new_uuid,
}
use distributed_payment_mana.Silvergate.Tables.{find, update_where, count_where, same_key}
use distributed_payment_mana.Paymanager.Payment.Entity.{
  Status, Payment, Key, Failure, not_found, already_exists, event_already_stored, database,
}
use distributed_payment_mana.Paymanager.Payment.Tables.{PaymentRow, Store, put_payments, put_events}

-- The goroutines of service.go.
pub data Task : Type 0 where
  capture_in_background : Uuid → String → ℤ → Task
  capture_with_delay : Uuid → String → ℤ → Task

abbrev pub Manager : Type 0
Manager = World Store (Unit {0}) Task

abbrev pub Call : Type 0 → Type 0
Call A = Exec Manager Failure A

-- nilIfEmpty, and a nil pointer that leaves a field empty
unfoldable pub column : String → Option String
column s = if str_eq s "" then none else some s

abbrev or_empty : Option String → String
or_empty none = ""
or_empty (some s) = s

unfoldable pub payment_row : Payment → PaymentRow
unfolding column
payment_row p = record {
  id = p.id;
  amount = p.amount;
  currency = p.currency;
  card_token = p.card_token;
  status = p.status;
  decline_reason = column p.decline_reason;
  provider_tx_id = column p.provider_tx_id;
  merchant_id = p.merchant_id;
  refunded_amount = p.refunded_amount;
  capture_at = p.capture_at;
  created_at = p.created_at;
  updated_at = p.updated_at;
}

unfoldable pub payment_of : PaymentRow → Payment
payment_of r = record {
  id = r.id;
  amount = r.amount;
  currency = r.currency;
  card_token = r.card_token;
  status = r.status;
  decline_reason = or_empty r.decline_reason;
  provider_tx_id = or_empty r.provider_tx_id;
  merchant_id = r.merchant_id;
  refunded_amount = r.refunded_amount;
  capture_at = r.capture_at;
  created_at = r.created_at;
  updated_at = r.updated_at;
}

-- IsPgErrorUniqueViolation
abbrev on_conflict : Failure → DbError Key → Failure
on_conflict f (unique_violation k) = f
on_conflict f e = database

abbrev any_failure : DbError Key → Failure
any_failure e = database

abbrev counted : ℕ → Result (DbError Key) Store → Result (DbError Key) (ℕ × Store)
counted n (ok s) = ok (n, s)
counted n (err e) = err e

-- UPDATE payments SET f WHERE p, with RowsAffected
unfoldable pub update_payments :
    (PaymentRow → Bool) → (PaymentRow → PaymentRow) → Store → Result (DbError Key) (ℕ × Store)
unfolding update_where count_where put_payments
update_payments p f s =
    counted (count_where p s.payments) (put_payments (update_where p f s.payments) s)

abbrev found : Option PaymentRow → Result Failure Payment
found none = err not_found
found (some r) = ok (payment_of r)

abbrev pub is_payment : Uuid → PaymentRow → Bool
is_payment id r = r.id == id

abbrev pub is_provided : String → PaymentRow → Bool
is_provided tx r = same_key r.provider_tx_id (some tx)

abbrev new_reason : String → Option String → Option String
new_reason reason old = if str_eq reason "" then old else some reason

module _ (db : Env) where
  unfoldable pub insert_payment : Payment → Call (Unit {0})
  insert_payment p = do
    n ←
        map_err (on_conflict already_exists)
          (statement db (λ s. counted 1 (put_payments (s.payments ++ payment_row p ∷ []) s)))
    pure tt

  unfoldable pub get_payment_by_id : Uuid → Call Payment
  get_payment_by_id id = do
    row ← map_err any_failure (statement db (λ s. ok (find (is_payment id) s.payments, s)))
    lift (found row)

  unfoldable pub get_payment_by_provider_tx_id : String → Call Payment
  get_payment_by_provider_tx_id tx = do
    row ← map_err any_failure (statement db (λ s. ok (find (is_provided tx) s.payments, s)))
    lift (found row)

  unfoldable pub update_payment_status : Uuid → Status → String → Call (Unit {0})
  update_payment_status id status reason = do
    at ← now db
    n ← map_err any_failure (
        statement db (
          update_payments (is_payment id) (λ r. record r {
            status = status;
            updated_at = at;
            decline_reason = new_reason reason r.decline_reason;
          })))
    lift (if n == 0 then err not_found else ok tt)

  unfoldable pub update_payment_refund : Uuid → Status → ℤ → Call (Unit {0})
  update_payment_refund id status refunded_amount = do
    at ← now db
    n ← map_err any_failure (
        statement db (
          update_payments (is_payment id) (λ r. record r {
            status = status;
            refunded_amount = refunded_amount;
            updated_at = at;
          })))
    lift (if n == 0 then err not_found else ok tt)

  -- (*PgEventStore).CreateEvent
  unfoldable pub create_event : String → Uuid → String → String → Time → Call (Unit {0})
  create_event aggregate_type aggregate_id event_type key created_at = do
    id ← new_uuid db
    n ← map_err (on_conflict event_already_stored) (
        statement db (λ s. counted 1 (
          put_events
            (s.events
              ++ record {
                id = id;
                aggregate_type = aggregate_type;
                aggregate_id = aggregate_id;
                event_type = event_type;
                idempotency_key = key;
                created_at = created_at;
              }
                ∷ [])
            s)))
    pure tt
