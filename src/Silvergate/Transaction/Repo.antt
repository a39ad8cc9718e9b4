-- ===== src/Silvergate/Transaction/Repo.antt =====
-- services/silvergate/internal/transaction/transactionrepo/pg.go: the statements on the tables
-- `transactions` and `refunds`. `db` stands for the executor, a pool or a transaction.
pub mod Outcome
use distributed_payment_mana.Prelude.{
  ℕ, ℤ, pos, String, Bool, true, false, Option, none, some, List, [], ◌∷◌, ◌++◌, ◌==◌, str_eq,
  leb_ℤ, ◌-ℤ◌, ◌&&◌, if◌then◌else◌,
}
use distributed_payment_mana.Exec.{
  Exec, Result, ok, err, mapped, map_err, lift, pure, raise, ◌>>=◌, ◌>>◌,
}
use distributed_payment_mana.Postgres.{Uuid, Time, Env, DbError, unique_violation, statement, now}
use distributed_payment_mana.Silvergate.Errors.{
  Constraint, idx_transactions_purchase_idempotency, Error, TransactionError, transaction, database,
  duplicate_idempotency, purchase_idempotency_conflict, status_changed,
}
use distributed_payment_mana.Silvergate.Errors
use distributed_payment_mana.Silvergate.Transaction.Entity.{
  Status, captured, partially_refunded, status_eq, Transaction, Refund,
}
use distributed_payment_mana.Silvergate.Tables.{
  TransactionRow, RefundRow, Store, put_transactions, put_refunds, update_where, count_where, find,
  same_key,
}
use distributed_payment_mana.Silvergate.Runtime.{Gateway, Call, Sql}

-- nilIfEmpty
unfoldable pub nil_if_empty : String → Option String
nil_if_empty s = if str_eq s "" then none else some s

-- A nil pointer leaves the field at its zero value.
unfoldable pub or_empty : Option String → String
or_empty none = ""
or_empty (some s) = s

-- mapUniqueViolation; any other error stays what it is.
unfoldable pub map_unique_violation : DbError Constraint → Error
map_unique_violation (unique_violation idx_transactions_purchase_idempotency) =
    transaction purchase_idempotency_conflict
map_unique_violation (unique_violation c) = transaction duplicate_idempotency
map_unique_violation e = database e

-- The row that Create inserts. `refunded_amount` is left to its default.
unfoldable pub insert_row : Transaction → TransactionRow
unfolding nil_if_empty
insert_row t = record {
  id = t.id;
  merchant_id = t.merchant_id;
  order_ref = t.order_ref;
  amount = t.amount;
  currency = t.currency;
  card_token = t.card_token;
  status = t.status;
  decline_reason = nil_if_empty t.decline_reason;
  idempotency_key = nil_if_empty t.idempotency_key;
  purchase_idempotency_key = nil_if_empty t.purchase_idempotency_key;
  product_id = t.product_id;
  refunded_amount = pos 0;
  created_at = t.created_at;
  updated_at = t.updated_at;
}

-- scanTransaction on a row.
unfoldable pub scan_row : TransactionRow → Transaction
unfolding or_empty
scan_row r = record {
  id = r.id;
  merchant_id = r.merchant_id;
  order_ref = r.order_ref;
  amount = r.amount;
  currency = r.currency;
  card_token = r.card_token;
  status = r.status;
  decline_reason = or_empty r.decline_reason;
  idempotency_key = or_empty r.idempotency_key;
  purchase_idempotency_key = or_empty r.purchase_idempotency_key;
  product_id = r.product_id;
  refunded_amount = r.refunded_amount;
  created_at = r.created_at;
  updated_at = r.updated_at;
}

-- scanTransaction, pgx.ErrNoRows included.
unfoldable pub scan_transaction : Option TransactionRow → Result Error Transaction
unfolding scan_row
scan_transaction none = err (transaction TransactionError.not_found)
scan_transaction (some r) = ok (scan_row r)

abbrev pub counted : ℕ → Result (DbError Constraint) Store → Result (DbError Constraint) (ℕ × Store)
counted n (ok s) = ok (n, s)
counted n (err e) = err e

-- UPDATE transactions SET f WHERE p, with RowsAffected
unfoldable pub update_transactions :
    (TransactionRow → Bool)
    → (TransactionRow → TransactionRow)
    → Store
    → Result (DbError Constraint) (ℕ × Store)
unfolding update_where count_where put_transactions
update_transactions p f s =
    counted (count_where p s.transactions) (put_transactions (update_where p f s.transactions) s)

unfoldable pub insert_transaction : TransactionRow → Store → Result (DbError Constraint) (ℕ × Store)
unfolding put_transactions
insert_transaction r s = counted 1 (put_transactions (s.transactions ++ r ∷ []) s)

unfoldable pub update_refunds :
    (RefundRow → Bool) → (RefundRow → RefundRow) → Store → Result (DbError Constraint) (ℕ × Store)
unfolding update_where count_where put_refunds
update_refunds p f s =
    counted (count_where p s.refunds) (put_refunds (update_where p f s.refunds) s)

unfoldable pub insert_refund : RefundRow → Store → Result (DbError Constraint) (ℕ × Store)
unfolding put_refunds
insert_refund r s = counted 1 (put_refunds (s.refunds ++ r ∷ []) s)

-- SELECT … FROM transactions WHERE p
unfoldable pub select_transaction :
    (TransactionRow → Bool) → Store → Result (DbError Constraint) (Option TransactionRow × Store)
unfolding find
select_transaction p s = ok (find p s.transactions, s)

abbrev pub has_id : Uuid → TransactionRow → Bool
has_id id r = r.id == id

-- RowsAffected() == 0
abbrev pub affected : TransactionError → ℕ → Result Error (Unit {0})
affected e n = if n == 0 then err (transaction e) else ok tt

module _ (db : Env) where
  unfoldable pub create : Transaction → Call (Unit {0})
  unfolding statement insert_transaction insert_row map_unique_violation ◌>>=◌
  create t = do
    n ← map_err map_unique_violation (statement db (insert_transaction (insert_row t)))
    pure tt

  unfoldable pub get_by_id : Uuid → Call Transaction
  unfolding statement select_transaction scan_transaction ◌>>=◌
  get_by_id id = do
    row ← map_err database (statement db (select_transaction (has_id id)))
    lift (scan_transaction row)

  -- FOR UPDATE also locks the row until the transaction ends.
  unfoldable pub get_by_id_for_update : Uuid → Call Transaction
  unfolding statement select_transaction scan_transaction ◌>>=◌
  get_by_id_for_update id = do
    row ← map_err database (statement db (select_transaction (has_id id)))
    lift (scan_transaction row)

  unfoldable pub get_by_purchase_idempotency_key : String → String → Call Transaction
  unfolding statement select_transaction scan_transaction ◌>>=◌
  get_by_purchase_idempotency_key merchant key = do
    row ← map_err database (
        statement db (
          select_transaction
            (λ r. str_eq r.merchant_id merchant && same_key r.purchase_idempotency_key (some key))))
    lift (scan_transaction row)

  unfoldable pub update_status : Transaction → Call (Unit {0})
  unfolding statement update_transactions nil_if_empty map_unique_violation ◌>>=◌
  update_status t = do
    n ← map_err map_unique_violation (
        statement db (
          update_transactions (has_id t.id) (λ r. record r {
            status = t.status;
            idempotency_key = nil_if_empty t.idempotency_key;
            updated_at = t.updated_at;
          })))
    lift (affected TransactionError.not_found n)

  unfoldable pub compare_and_update_status : Uuid → Status → Status → Call (Unit {0})
  unfolding statement update_transactions now ◌>>=◌
  compare_and_update_status id expected next = do
    at ← now db
    n ← map_err database (
        statement db (
          update_transactions (λ r. has_id id r && status_eq r.status expected)
            (λ r. record r { status = next; updated_at = at })))
    lift (affected status_changed n)

  unfoldable pub update_refund : Transaction → Call (Unit {0})
  unfolding statement update_transactions ◌>>=◌
  update_refund t = do
    n ← map_err database (
        statement db (
          update_transactions (has_id t.id) (λ r. record r {
            status = t.status;
            refunded_amount = t.refunded_amount;
            updated_at = t.updated_at;
          })))
    pure tt

  unfoldable pub create_refund : Refund → Call (Unit {0})
  unfolding statement insert_refund nil_if_empty map_unique_violation ◌>>=◌
  create_refund r = do
    n ← map_err map_unique_violation (
        statement db (
          insert_refund (record {
            id = r.id;
            transaction_id = r.transaction_id;
            amount = r.amount;
            status = r.status;
            idempotency_key = nil_if_empty r.idempotency_key;
            created_at = r.created_at;
            updated_at = r.updated_at;
          })))
    pure tt

  unfoldable pub update_refund_status : Refund → Call (Unit {0})
  unfolding statement update_refunds ◌>>=◌
  update_refund_status r = do
    n ← map_err database (
        statement db (
          update_refunds (λ (row : RefundRow). row.id == r.id)
            (λ row. record row { status = r.status; updated_at = r.updated_at })))
    pure tt

  -- The statement subtracts from what the row holds. One that reports an error is taken as not applied;
  -- where the answer alone was lost, the caller's next attempt would subtract once more.
  -- CASE WHEN refunded_amount - $1 <= 0 THEN 'captured' ELSE 'partially_refunded' END
  unfoldable pub release_refund_amount : Uuid → ℤ → Call (Unit {0})
  unfolding statement update_transactions now ◌-ℤ◌ ◌>>=◌
  release_refund_amount id amount = do
    at ← now db
    n ← map_err database (
        statement db (
          update_transactions (has_id id) (λ r. record r {
            refunded_amount = r.refunded_amount -ℤ amount;
            status =
                if leb_ℤ (r.refunded_amount -ℤ amount) (pos 0)
                then captured
                else partially_refunded;
            updated_at = at;
          })))
    pure tt
