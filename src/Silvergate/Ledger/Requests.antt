-- ===== src/Silvergate/Ledger/Requests.antt =====
-- Every request on a transaction keeps the books in order, whether it succeeds or fails.
use distributed_payment_mana.Prelude.{
  ℕ, ℤ, pos_part, neg_part, ◌+i64◌, ◌-i64◌, String, some, List, [], ◌∷◌, ◌++◌, ◌≡◌, refl, sym,
  subst, arith, ◌+◌, ◌<◌, ◌≤◌, All, true, max_int64,
}
use distributed_payment_mana.Exec.{ok, Result}
use distributed_payment_mana.Postgres.{Uuid, Time}
use distributed_payment_mana.Silvergate.Errors.{TransactionError}
use distributed_payment_mana.Silvergate.Acquirer.{AuthResult}
use distributed_payment_mana.Silvergate.Transaction.Entity.{
  Transaction, Refund, mark_capture_pending, mark_voided, new_refund_pending, refund_pending,
}
use distributed_payment_mana.Silvergate.Tables.{
  TransactionRow, RefundRow, Store, update_where, find, transaction_checks, refund_checks,
}
use distributed_payment_mana.Silvergate.Tables.Rows.{
  IsKeyed, put_transactions_ok, put_refunds_ok, All-update_found, All-append_inv, all-All, find-All,
  find-at_key,
}
use distributed_payment_mana.Silvergate.Runtime.{Gateway, Outside, refund}
use distributed_payment_mana.Silvergate.Transaction.Repo.{has_id, scan_row, insert_row}
use distributed_payment_mana.Silvergate.Transaction.Repo.Outcome.{
  set_status, set_refund, refund_row,
}
use distributed_payment_mana.Silvergate.Transaction.Service.{
  AuthRequest, CaptureRequest, RefundRequest, authorization, tag_purchase, reserve_refund,
}
use distributed_payment_mana.Silvergate.Transaction.Service.Outcome.{Marked, Reserved, Authorized}
use distributed_payment_mana.Silvergate.Ledger.{RowOk, Books}
use distributed_payment_mana.Silvergate.Ledger.Changes.{Books-insert, Books-update}
use distributed_payment_mana.Silvergate.Ledger.Changes.Refunds.{Books-refund}

checked_amount :
    (r : TransactionRow)
    → transaction_checks r ≡ true
    → (pos_part r.amount ≤ max_int64)
      × (neg_part r.amount ≤ max_int64 + 1)
      × (neg_part r.refunded_amount ≡ 0)
unfolding transaction_checks
checked_amount r h = ground arith

new_row-RowOk :
    (req : AuthRequest) (id : Uuid) (at : Time) (result : AuthResult)
    → transaction_checks (insert_row (tag_purchase req (authorization id at req result))) ≡ true
    → RowOk (insert_row (tag_purchase req (authorization id at req result)))
unfolding tag_purchase authorization insert_row
new_row-RowOk req id at result h = ground (arith, checked_amount _ h)

capture-RowOk :
    (at : Time) (key : String) (row : TransactionRow) (tx : Transaction)
    → RowOk row
    → mark_capture_pending at key (scan_row row) ≡ ok tx
    → RowOk (set_status tx row) × (tx.id ≡ row.id)
unfolding mark_capture_pending scan_row
capture-RowOk at key row tx h e = ground arith

void-RowOk :
    (at : Time) (row : TransactionRow) (tx : Transaction)
    → RowOk row
    → mark_voided at (scan_row row) ≡ ok tx
    → RowOk (set_status tx row) × (tx.id ≡ row.id)
unfolding mark_voided scan_row
void-RowOk at row tx h e = ground arith

checked_refund :
    (r : RefundRow)
    → refund_checks r ≡ true
    → (0 < pos_part r.amount) × (neg_part r.amount ≡ 0) × (pos_part r.amount ≤ max_int64)
unfolding refund_checks
checked_refund r h = ground arith

remaining_exact :
    (a r : ℤ)
    → neg_part r ≡ 0
    → pos_part r ≤ pos_part a
    → pos_part a ≤ max_int64
    → neg_part a ≤ max_int64 + 1
    → pos_part (a -i64 r) + pos_part r + neg_part a ≡ neg_part (a -i64 r) + pos_part a
unfolding ◌-i64◌
remaining_exact a r h1 h2 h3 h4 = ground arith

total_exact :
    (r n : ℤ)
    → neg_part r ≡ 0
    → neg_part n ≡ 0
    → pos_part r + pos_part n ≤ max_int64
    → (pos_part (r +i64 n) ≡ pos_part r + pos_part n) × (neg_part (r +i64 n) ≡ 0)
unfolding ◌+i64◌
total_exact r n h1 h2 h3 = ground arith

-- What Refund computes fits into 64 bits: the arithmetic does not wrap.
pub reserve-RowOk :
    (at : Time) (amount : ℤ) (row : TransactionRow) (tx : Transaction)
    → RowOk row
    → 0 < pos_part amount
    → neg_part amount ≡ 0
    → pos_part amount ≤ max_int64
    → reserve_refund at amount (scan_row row) ≡ ok tx
    → RowOk (set_refund tx row)
      × (tx.id ≡ row.id)
      × (pos_part tx.refunded_amount ≡ pos_part row.refunded_amount + pos_part amount)
unfolding reserve_refund scan_row
reserve-RowOk at amount row tx row_ok positive nonneg small e = ground (
  arith,
  remaining_exact row.amount row.refunded_amount row_ok.nonneg row_ok.within row_ok.amount_max
      row_ok.amount_min,
  total_exact row.refunded_amount amount row_ok.nonneg nonneg,
)

last_All : {A : Type 0} (P : A → Type 0) (xs : List A) (y : A) → All P (xs ++ y ∷ []) → P y
last_All P xs y h = (All-append_inv P xs (y ∷ []) h).1.0

module _ {paid : Uuid → ℕ} (w : Gateway)
    (b : Books paid w.store.transactions w.store.refunds w.tasks) where
  pub authorized-Books :
      (out : Outside) (req : AuthRequest) (tx : Transaction) (after : Store)
      → Authorized out req tx w.store after
      → Books paid after.transactions after.refunds w.tasks
  authorized-Books out req tx after a =
      let (st, checks, keyed) =
        put_transactions_ok (w.store.transactions ++ insert_row tx ∷ []) w.store a.written in
      let checked : transaction_checks (insert_row tx) ≡ true =
        last_All (λ r. transaction_checks r ≡ true) w.store.transactions (insert_row tx)
          (all-All (λ r. transaction_checks r ≡ true) transaction_checks
            (w.store.transactions ++ insert_row tx ∷ []) (λ r h. h) checks) in
      let row_ok : RowOk (insert_row tx) =
        subst (λ t. RowOk (insert_row t)) (sym a.made)
          (new_row-RowOk req a.id a.at a.result
            (subst (λ t. transaction_checks (insert_row t) ≡ true) a.made checked)) in
      subst (λ (s : Store). Books paid s.transactions s.refunds w.tasks) (sym st)
        (Books-insert b (insert_row tx) keyed row_ok)

  -- A row is found, marked and written: Capture and Void.
  marked-Books :
      (id : Uuid) (mark : Time → Transaction → Result TransactionError Transaction)
      (tx : Transaction) (after : Store)
      → ((at : Time) (row : TransactionRow)
          → RowOk row
          → mark at (scan_row row) ≡ ok tx
          → RowOk (set_status tx row) × (tx.id ≡ row.id))
      → Marked id mark tx w.store after
      → Books paid after.transactions after.refunds w.tasks
  marked-Books id mark tx after fits m =
      let row_ok = find-All RowOk (has_id id) w.store.transactions m.row b.rows_ok m.found in
      let (new_ok, same) = fits m.at m.row row_ok m.marked in
      let at_id =
        find-at_key (λ (r : TransactionRow). r.id) id w.store.transactions m.row m.found in
      let id≡ : tx.id ≡ id = ground arith in
      let found : find (has_id tx.id) w.store.transactions ≡ some m.row = rw id≡ m.found in
      let (st, checks, keyed) =
        put_transactions_ok (update_where (has_id tx.id) (set_status tx) w.store.transactions)
          w.store m.written in
      subst (λ (s : Store). Books paid s.transactions s.refunds w.tasks) (sym st)
        (Books-update b (has_id tx.id) (set_status tx) (λ r. refl) (λ r. refl) keyed
          (All-update_found (λ (r : TransactionRow). r.id) RowOk tx.id (set_status tx)
            w.store.transactions m.row b.keyed found new_ok b.rows_ok))

  pub captured-Books :
      (req : CaptureRequest) (tx : Transaction) (after : Store)
      → Marked req.transaction_id
          (λ at. mark_capture_pending at req.idempotency_key)
          tx
          w.store
          after
      → Books paid after.transactions after.refunds w.tasks
  captured-Books req tx after =
      marked-Books req.transaction_id (λ at. mark_capture_pending at req.idempotency_key) tx after
        (λ at row. capture-RowOk at req.idempotency_key row tx)

  pub voided-Books :
      (id : Uuid) (tx : Transaction) (after : Store)
      → Marked id mark_voided tx w.store after
      → Books paid after.transactions after.refunds w.tasks
  voided-Books id tx after = marked-Books id mark_voided tx after (λ at row. void-RowOk at row tx)

  pub reserved-Books :
      (req : RefundRequest) (tx : Transaction) (r : Refund) (after : Store)
      → Reserved req tx r w.store after
      → Books paid after.transactions after.refunds (w.tasks ++ refund tx r ∷ [])
  unfolding new_refund_pending
  reserved-Books req tx r after m =
      let row_ok =
        find-All RowOk (has_id req.transaction_id) w.store.transactions m.row b.rows_ok m.found in
      let (st, checks, keyed) =
        put_transactions_ok (update_where (has_id tx.id) (set_refund tx) w.store.transactions)
          w.store m.written in
      let (st', checks', keyed') =
        put_refunds_ok (m.middle.refunds ++ refund_row r ∷ []) m.middle m.inserted in
      let (p1, p2, p3) = checked_refund (refund_row r) (
        last_All (λ r. refund_checks r ≡ true) m.middle.refunds (refund_row r)
          (all-All (λ r. refund_checks r ≡ true) refund_checks
            (m.middle.refunds ++ refund_row r ∷ []) (λ r h. h) checks')) in
      let refund_eqs = shape m.id m.created m.refund_eq in
      let (new_ok, same, sum) =
        reserve-RowOk m.at req.amount m.row tx row_ok (subst (λ a. 0 < pos_part a) refund_eqs.0 p1)
          (subst (λ a. neg_part a ≡ 0) refund_eqs.0 p2)
          (subst (λ a. pos_part a ≤ max_int64) refund_eqs.0 p3) m.taken in
      let at_id =
        find-at_key (λ (r : TransactionRow). r.id) req.transaction_id w.store.transactions m.row
          m.found in
      let id≡ : tx.id ≡ req.transaction_id = ground arith in
      let found : find (has_id tx.id) w.store.transactions ≡ some m.row = rw id≡ m.found in
      subst (λ (s : Store). Books paid s.transactions s.refunds (w.tasks ++ refund tx r ∷ []))
        (sym st')
        (subst
          (λ (s : Store).
            Books paid s.transactions (s.refunds ++ refund_row r ∷ [])
              (w.tasks ++ refund tx r ∷ []))
          (sym st)
          (Books-refund tx r w.tasks m.row b found (sym same) (ground arith) new_ok refund_eqs.1
            refund_eqs.2 p1 keyed
            (subst
              (λ (s : Store). IsKeyed (λ (r : RefundRow). r.id) (s.refunds ++ refund_row r ∷ [])) st
              keyed')))
    where
      shape :
          (id : Uuid) (created : Time)
          → r ≡ new_refund_pending id created tx.id req.amount req.idempotency_key
          → (r.amount ≡ req.amount) × (r.status ≡ refund_pending) × (r.transaction_id ≡ tx.id)
      shape id created e = ground arith
