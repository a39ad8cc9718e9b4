-- ===== src/Silvergate/Transaction/Service/Effects.antt =====
-- What a capture, a void and a refund that succeed have found, written and started, in the words of
-- the tables: services/silvergate/internal/transaction/service.go.
use distributed_payment_mana.Prelude.{
  ◌≡◌, some, [], ◌∷◌, ◌++◌, arith, false, if◌then◌else◌, ltb_ℤ, leb_ℤ, ◌-i64◌, ◌+i64◌, ◌⊎◌, refl,
  ◌∙◌,
}
use distributed_payment_mana.Exec.{ok}
use distributed_payment_mana.Postgres.{Uuid, Time}
use distributed_payment_mana.Silvergate.Tables.{TransactionRow, update_where, find}
use distributed_payment_mana.Silvergate.Tables.Rows.{put_transactions_ok, put_refunds_ok}
use distributed_payment_mana.Silvergate.Runtime.{Gateway, Outside, settle, refund, void_notify}
use distributed_payment_mana.Silvergate.Transaction.Entity.{
  Transaction, authorized, capture_pending, captured, voided, partially_refunded, refunded,
  refund_pending, mark_capture_pending, mark_voided, new_refund_pending,
}
use distributed_payment_mana.Silvergate.Transaction.Repo.{has_id, scan_row, nil_if_empty}
use distributed_payment_mana.Silvergate.Transaction.Repo.Outcome.{
  set_status, set_refund, refund_row,
}
use distributed_payment_mana.Silvergate.Transaction.Service.{
  CaptureRequest, CaptureResponse, RefundRequest, reserve_refund, capture, refund_payment,
  RefundResponse, VoidResponse, void,
}
use distributed_payment_mana.Silvergate.Transaction.Service.Outcome.{capture_ok, void_ok, refund_ok}

-- A transaction that was authorized is capture pending, with the key of the request.
pub record Captured (req : CaptureRequest) (resp : CaptureResponse) (w v : Gateway) : Type 0 where
  pub row : TransactionRow
  pub at : Time
  pub found : find (has_id req.transaction_id) w.store.transactions ≡ some row
  pub was : row.status ≡ authorized
  pub answer : resp ≡ record { transaction_id = row.id; status = capture_pending }
  pub stored : v.store ≡ record w.store {
    transactions =
        update_where
          (has_id row.id)
          (λ r. record r {
            status = capture_pending;
            idempotency_key = nil_if_empty req.idempotency_key;
            updated_at = at;
          })
          w.store.transactions;
  }
  pub silent : v.sent ≡ w.sent
  pub started :
      v.tasks
      ≡ w.tasks
        ++ settle
            (record (scan_row row) {
              status = capture_pending;
              idempotency_key = req.idempotency_key;
              updated_at = at;
            })
            req.amount
          ∷ []

-- A transaction that was authorized is voided.
pub record Voided (id : Uuid) (resp : VoidResponse) (w v : Gateway) : Type 0 where
  pub row : TransactionRow
  pub at : Time
  pub found : find (has_id id) w.store.transactions ≡ some row
  pub was : row.status ≡ authorized
  pub answer : resp ≡ record { transaction_id = row.id; status = voided }
  pub stored : v.store ≡ record w.store {
    transactions =
        update_where
          (has_id row.id)
          (λ r. record r {
            status = voided;
            idempotency_key = nil_if_empty (scan_row row).idempotency_key;
            updated_at = at;
          })
          w.store.transactions;
  }
  pub silent : v.sent ≡ w.sent
  pub started :
      v.tasks
      ≡ w.tasks ++ void_notify (record (scan_row row) { status = voided; updated_at = at }) ∷ []

-- A transaction that was captured, and not refunded in full, has the amount of the request added to
-- what is refunded of it, within its amount; a pending refund of that amount stands in the table.
pub record Refunding (req : RefundRequest) (resp : RefundResponse) (w v : Gateway) : Type 0 where
  pub row : TransactionRow
  pub at : Time
  pub created : Time
  pub id : Uuid
  pub found : find (has_id req.transaction_id) w.store.transactions ≡ some row
  pub was : (row.status ≡ captured) ⊎ (row.status ≡ partially_refunded)
  pub within : ltb_ℤ (row.amount -i64 row.refunded_amount) req.amount ≡ false
  pub answer : resp ≡ record {
    refund_id = id;
    transaction_id = row.id;
    amount = req.amount;
    status = refund_pending;
  }
  pub stored :
      let total = row.refunded_amount +i64 req.amount in
      v.store ≡ record {
        transactions =
            update_where
              (has_id row.id)
              (λ r. record r {
                status = if leb_ℤ row.amount total then refunded else partially_refunded;
                refunded_amount = total;
                updated_at = at;
              })
              w.store.transactions;
        refunds =
            w.store.refunds
            ++ record {
              id = id;
              transaction_id = row.id;
              amount = req.amount;
              status = refund_pending;
              idempotency_key = nil_if_empty req.idempotency_key;
              created_at = created;
              updated_at = created;
            }
              ∷ [];
        products = w.store.products;
      }
  pub silent : v.sent ≡ w.sent
  pub started :
      let total = row.refunded_amount +i64 req.amount in
      v.tasks
      ≡ w.tasks
        ++ refund
            (record (scan_row row) {
              status = if leb_ℤ row.amount total then refunded else partially_refunded;
              refunded_amount = total;
              updated_at = at;
            })
            (record {
              id = id;
              transaction_id = row.id;
              amount = req.amount;
              status = refund_pending;
              idempotency_key = req.idempotency_key;
              created_at = created;
              updated_at = created;
            })
          ∷ []

module _ (at : Time) (row : TransactionRow) {tx : Transaction} where
  capture_mark :
      (key : _)
      → mark_capture_pending at key (scan_row row) ≡ ok tx
      → (row.status ≡ authorized)
        × (tx ≡ record (scan_row row) {
          status = capture_pending;
          idempotency_key = key;
          updated_at = at;
        })
  unfolding mark_capture_pending scan_row
  capture_mark key h = (ground arith, ground arith)

  void_mark :
      mark_voided at (scan_row row) ≡ ok tx
      → (row.status ≡ authorized)
        × (tx ≡ record (scan_row row) { status = voided; updated_at = at })
  unfolding mark_voided scan_row
  void_mark h = (ground arith, ground arith)

  refund_mark :
      (amount : _)
      → reserve_refund at amount (scan_row row) ≡ ok tx
      → let total = row.refunded_amount +i64 amount in
        ((row.status ≡ captured) ⊎ (row.status ≡ partially_refunded))
        × (ltb_ℤ (row.amount -i64 row.refunded_amount) amount ≡ false)
        × (tx ≡ record (scan_row row) {
          status = if leb_ℤ row.amount total then refunded else partially_refunded;
          refunded_amount = total;
          updated_at = at;
        })
  unfolding reserve_refund scan_row
  refund_mark amount h = (ground arith, ground arith, ground arith)

module _ (out : Outside) (w : Gateway) {v : Gateway} where
  -- A capture that succeeds found the transaction of the request authorized. It wrote the status
  -- capture_pending, the key of the request and a time to the rows with that identifier, and no other
  -- column, row or table; it posts no webhook, and starts one goroutine, which settles that
  -- transaction, as it was marked, for the amount of the request.
  pub capture-Captured :
      (req : CaptureRequest) {resp : CaptureResponse}
      → capture out req w ≡ (ok resp, v)
      → Captured req resp w v
  unfolding scan_row
  capture-Captured req h =
      let (tx, m, answer, silent, started) = capture_ok out w {v = v} req h in
      let (was, new) = capture_mark m.at m.row req.idempotency_key m.marked in
      let (put, _, _) =
        put_transactions_ok (update_where (has_id tx.id) (set_status tx) w.store.transactions)
          w.store m.written in
      record {
        row = m.row;
        at = m.at;
        found = m.found;
        was = was;
        answer = answer ∙ rw new refl;
        stored = put ∙ rw new refl;
        silent = silent;
        started = started ∙ rw new refl;
      }

  -- A void that succeeds found the transaction authorized. It wrote the status voided and a time to
  -- the rows with that identifier, whose key it wrote back, and no other column, row or table; it
  -- posts no webhook itself, and starts one goroutine, which announces that transaction as voided.
  pub void-Voided :
      (id : Uuid) {resp : VoidResponse} → void out id w ≡ (ok resp, v) → Voided id resp w v
  unfolding scan_row
  void-Voided id h =
      let (tx, m, answer, silent, started) = void_ok out w {v = v} id h in
      let (was, new) = void_mark m.at m.row m.marked in
      let (put, _, _) =
        put_transactions_ok (update_where (has_id tx.id) (set_status tx) w.store.transactions)
          w.store m.written in
      record {
        row = m.row;
        at = m.at;
        found = m.found;
        was = was;
        answer = answer ∙ rw new refl;
        stored = put ∙ rw new refl;
        silent = silent;
        started = started ∙ rw new refl;
      }

  -- A refund that succeeds found the transaction captured or partially refunded, and its amount is at
  -- most what remains of the amount. It added that amount, in 64 bits, to what is refunded of the
  -- transaction, which is refunded when the sum reaches the amount and partially refunded otherwise,
  -- and inserted one pending refund of that amount; nothing else is written. It posts no webhook, and
  -- starts one goroutine, which asks the bank for that same refund.
  pub refund_payment-Refunding :
      (req : RefundRequest) {resp : RefundResponse}
      → refund_payment out req w ≡ (ok resp, v)
      → Refunding req resp w v
  unfolding scan_row new_refund_pending
  refund_payment-Refunding req h =
      let (tx, r, m, answer, silent, started) = refund_ok out w {v = v} req h in
      let (was, within, new) = refund_mark m.at m.row req.amount m.taken in
      let (put, _, _) =
        put_transactions_ok (update_where (has_id tx.id) (set_refund tx) w.store.transactions)
          w.store m.written in
      let (put', _, _) =
        put_refunds_ok (m.middle.refunds ++ refund_row r ∷ []) m.middle m.inserted in
      record {
        row = m.row;
        at = m.at;
        created = m.created;
        id = m.id;
        found = m.found;
        was = was;
        within = within;
        answer = answer ∙ rw (m.refund_eq, new) refl;
        stored = put' ∙ rw (put, m.refund_eq, new) refl;
        silent = silent;
        started = started ∙ rw (m.refund_eq, new) refl;
      }
