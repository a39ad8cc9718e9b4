-- ===== src/Silvergate/Transaction/Service/Outcome.antt =====
-- What each operation of the gateway has done when it succeeds.
use distributed_payment_mana.Prelude.{ℕ, subst, ◌≡◌, some, [], ◌∷◌, ◌++◌, arith}
use distributed_payment_mana.Exec.{Result, ok}
use distributed_payment_mana.Exec.Outcome.{>>=-then}
use distributed_payment_mana.Postgres.{Uuid, Time, ticked}
use distributed_payment_mana.Postgres.Outcome.{Quiet, in_transaction_ok, now_ok, new_uuid_ok}
use distributed_payment_mana.Silvergate.Errors.{TransactionError}
use distributed_payment_mana.Silvergate.Transaction.Entity.{
  Transaction, Refund, mark_capture_pending, mark_voided, new_refund_pending, capture_pending,
  voided, refund_pending,
}
use distributed_payment_mana.Silvergate.Acquirer.{AuthResult, Unreachable}
use distributed_payment_mana.Silvergate.Tables.{
  TransactionRow, Store, put_transactions, put_refunds, update_where, find,
}
use distributed_payment_mana.Silvergate.Runtime.{Gateway, Outside, settle, refund, void_notify}
use distributed_payment_mana.Silvergate.Transaction.Repo.{has_id, scan_row, insert_row}
use distributed_payment_mana.Silvergate.Transaction.Repo.Outcome.{
  set_status, set_refund, refund_row, get_by_id_ok, get_by_id_for_update_ok, update_status_ok,
  update_refund_ok, create_refund_ok, create_ok,
}
use distributed_payment_mana.Silvergate.Transaction.Service.{
  AuthRequest, CaptureRequest, CaptureResponse, RefundRequest, authorize_in_tx, capture_in_tx,
  capture, refund_in_tx, reserve_refund, refund_payment, RefundResponse, VoidResponse, ask,
  tag_purchase, authorization, void_in_tx, void,
}

-- A transaction of the table was marked by `mark`, and its status was written.
pub record Marked (id : Uuid) (mark : Time → Transaction → Result TransactionError Transaction)
    (tx : Transaction) (before after : Store) : Type 0 where
  pub row : TransactionRow
  pub at : Time
  pub found : find (has_id id) before.transactions ≡ some row
  pub marked : mark at (scan_row row) ≡ ok tx
  pub written :
      put_transactions (update_where (has_id tx.id) (set_status tx) before.transactions) before
      ≡ ok after

-- A refund was reserved and its row inserted; `middle` is between the two statements.
pub record Reserved (req : RefundRequest) (tx : Transaction) (r : Refund) (before after : Store)
    : Type 0 where
  pub row : TransactionRow
  pub at : Time
  pub created : Time
  pub id : Uuid
  pub middle : Store
  pub found : find (has_id req.transaction_id) before.transactions ≡ some row
  pub taken : reserve_refund at req.amount (scan_row row) ≡ ok tx
  pub refund_eq : r ≡ new_refund_pending id created tx.id req.amount req.idempotency_key
  pub written :
      put_transactions (update_where (has_id tx.id) (set_refund tx) before.transactions) before
      ≡ ok middle
  pub inserted : put_refunds (middle.refunds ++ refund_row r ∷ []) middle ≡ ok after

-- A new transaction was inserted, with what the bank has answered.
pub record Authorized (out : Outside) (req : AuthRequest) (tx : Transaction) (before after : Store)
    : Type 0 where
  pub result : AuthResult
  pub at : Time
  pub id : Uuid
  pub made : tx ≡ tag_purchase req (authorization id at req result)
  pub written : put_transactions (before.transactions ++ insert_row tx ∷ []) before ≡ ok after

ask_ok :
    {A : Type 0} (call : ℕ → Result Unreachable A) (w : Gateway) {a : A} {v : Gateway}
    → ask call w ≡ (ok a, v)
    → v ≡ ticked w
unfolding ask
ask_ok call w h = ground arith

module _ (out : Outside) (w : Gateway) {v : Gateway} where
  pub capture_in_tx_ok :
      (req : CaptureRequest) {tx : Transaction}
      → capture_in_tx out req w ≡ (ok tx, v)
      → Marked req.transaction_id
          (λ at. mark_capture_pending at req.idempotency_key)
          tx
          w.store
          v.store
        × Quiet w v
  unfolding capture_in_tx
  capture_in_tx_ok req h = >>=-then _ _ w h λ found u1 e1 k1. >>=-then _ _ u1 k1 λ at u2 e2 k2.
      >>=-then _ _ u2 k2 λ tx u3 e3 k3. >>=-then _ _ u3 k3 λ u u4 e4 k4.
        let (row, found_row, t, same, (s1, g1)) = get_by_id_ok out.env w req.transaction_id e1 in
        let (_, n2) = now_ok out.env u1 e2 in
        let (put, (s4, g4)) = update_status_ok out.env u3 tx e4 in
        (
          record {
            row = row;
            at = at;
            found = found_row;
            marked = ground arith;
            written = ground arith;
          },
          (ground arith, ground arith),
        )

  pub void_in_tx_ok :
      (id : Uuid) {tx : Transaction}
      → void_in_tx out id w ≡ (ok tx, v)
      → Marked id mark_voided tx w.store v.store × Quiet w v
  unfolding void_in_tx
  void_in_tx_ok id h = >>=-then _ _ w h λ found u1 e1 k1. >>=-then _ _ u1 k1 λ at u2 e2 k2.
      >>=-then _ _ u2 k2 λ tx u3 e3 k3. >>=-then _ _ u3 k3 λ result u4 e4 k4.
        >>=-then _ _ u4 k4 λ agreed u5 e5 k5. >>=-then _ _ u5 k5 λ u u6 e6 k6.
          let (row, found_row, t, same, (s1, g1)) = get_by_id_for_update_ok out.env w id e1 in
          let (_, n2) = now_ok out.env u1 e2 in
          let n4 = ask_ok (λ n. out.bank.void n (out.env.uuid_string tx.id)) u3 e4 in
          let (put, (s4, g4)) = update_status_ok out.env u5 tx e6 in
          (
            record {
              row = row;
              at = at;
              found = found_row;
              marked = ground arith;
              written = ground arith;
            },
            (ground arith, ground arith),
          )

  pub refund_in_tx_ok :
      (req : RefundRequest) {tx : Transaction} {r : Refund}
      → refund_in_tx out req w ≡ (ok (tx, r), v)
      → Reserved req tx r w.store v.store × Quiet w v
  unfolding refund_in_tx
  refund_in_tx_ok req h = >>=-then _ _ w h λ found u1 e1 k1. >>=-then _ _ u1 k1 λ at u2 e2 k2.
      >>=-then _ _ u2 k2 λ tx u3 e3 k3. >>=-then _ _ u3 k3 λ u u4 e4 k4.
        >>=-then _ _ u4 k4 λ created u5 e5 k5. >>=-then _ _ u5 k5 λ id u6 e6 k6.
          >>=-then _ _ u6 k6 λ u' u7 e7 k7.
            let (row, found_row, t, same, (s1, g1)) =
              get_by_id_ok out.env w req.transaction_id e1 in
            let (_, n2) = now_ok out.env u1 e2 in
            let (put, (s4, g4)) = update_refund_ok out.env u3 tx e4 in
            let (_, n5) = now_ok out.env u4 e5 in
            let (_, n6) = new_uuid_ok out.env u5 e6 in
            let (put', (s7, g7)) =
              create_refund_ok out.env u6
                (new_refund_pending id created tx.id req.amount req.idempotency_key) e7 in
            (
              record {
                row = row;
                at = at;
                created = created;
                id = id;
                middle = u4.store;
                found = found_row;
                taken = ground arith;
                refund_eq = ground arith;
                written = ground arith;
                inserted = ground arith;
              },
              (ground arith, ground arith),
            )

  pub authorize_in_tx_ok :
      (req : AuthRequest) {tx : Transaction}
      → authorize_in_tx out req w ≡ (ok tx, v)
      → Authorized out req tx w.store v.store × Quiet w v
  unfolding authorize_in_tx
  authorize_in_tx_ok req h = >>=-then _ _ w h λ result u1 e1 k1. >>=-then _ _ u1 k1 λ at u2 e2 k2.
      >>=-then _ _ u2 k2 λ id u3 e3 k3. >>=-then _ _ u3 k3 λ u u4 e4 k4.
        let n1 = ask_ok (λ n. out.bank.authorize n req.amount req.currency req.card_token) w e1 in
        let (_, n2) = now_ok out.env u1 e2 in
        let (_, n3) = new_uuid_ok out.env u2 e3 in
        let (put, (s4, g4)) =
          create_ok out.env u3 (tag_purchase req (authorization id at req result)) e4 in
        (
          record { result = result; at = at; id = id; made = ground arith; written = ground arith },
          (ground arith, ground arith),
        )

-- What a request leaves: its answer with the goroutine that it has started.
module _ (out : Outside) (w : Gateway) {v : Gateway} where
  -- A capture that succeeds found the transaction of the request and wrote it back marked as capture
  -- pending with the key of the request; it posts no webhook, and starts one goroutine, which settles
  -- that transaction for the amount of the request.
  pub capture_ok :
      (req : CaptureRequest) {resp : CaptureResponse}
      → capture out req w ≡ (ok resp, v)
      → (tx : Transaction) × Marked req.transaction_id
          (λ at. mark_capture_pending at req.idempotency_key)
          tx
          w.store
          v.store
        × (resp ≡ record { transaction_id = tx.id; status = capture_pending })
        × (v.sent ≡ w.sent)
        × (v.tasks ≡ w.tasks ++ settle tx req.amount ∷ [])
  unfolding capture
  capture_ok req h = >>=-then _ _ w h λ tx u1 e1 k1. >>=-then _ _ u1 k1 λ u u2 e2 k2.
      let (u', run, st, se, ta) = in_transaction_ok out.env _ _ _ w e1 in
      let (m, (s, t)) = capture_in_tx_ok out (ticked w) req run in
      (
        tx,
        subst
            (λ s.
              Marked req.transaction_id (λ at. mark_capture_pending at req.idempotency_key) tx
                w.store s)
            (ground arith) m,
        ground arith,
        ground arith,
        ground arith,
      )

  -- A void that succeeds found the transaction and wrote it back marked as voided; it posts no webhook
  -- itself, and starts one goroutine, which announces that transaction.
  pub void_ok :
      (id : Uuid) {resp : VoidResponse}
      → void out id w ≡ (ok resp, v)
      → (tx : Transaction) × Marked id mark_voided tx w.store v.store
        × (resp ≡ record { transaction_id = tx.id; status = voided })
        × (v.sent ≡ w.sent)
        × (v.tasks ≡ w.tasks ++ void_notify tx ∷ [])
  unfolding void
  void_ok id h = >>=-then _ _ w h λ tx u1 e1 k1. >>=-then _ _ u1 k1 λ u u2 e2 k2.
      let (u', run, st, se, ta) = in_transaction_ok out.env _ _ _ w e1 in
      let (m, (s, t)) = void_in_tx_ok out (ticked w) id run in
      (
        tx,
        subst (λ s. Marked id mark_voided tx w.store s) (ground arith) m,
        ground arith,
        ground arith,
        ground arith,
      )

  -- A refund that succeeds reserved its amount on the transaction that it found, wrote that
  -- reservation and then the row of the pending refund, and answers with that refund; it starts one
  -- goroutine, which asks the bank for that same refund.
  pub refund_ok :
      (req : RefundRequest) {resp : RefundResponse}
      → refund_payment out req w ≡ (ok resp, v)
      → (tx : Transaction) × (r : Refund) × Reserved req tx r w.store v.store
        × (resp ≡ record {
          refund_id = r.id;
          transaction_id = tx.id;
          amount = req.amount;
          status = refund_pending;
        })
        × (v.sent ≡ w.sent)
        × (v.tasks ≡ w.tasks ++ refund tx r ∷ [])
  unfolding refund_payment
  refund_ok req h = >>=-then _ _ w h λ p u1 e1 k1. >>=-then _ _ u1 k1 λ u u2 e2 k2.
      let (u', run, st, se, ta) = in_transaction_ok out.env _ _ _ w e1 in
      let (m, (s, t)) = refund_in_tx_ok out (ticked w) req run in
      (
        p.0,
        p.1,
        subst (λ s. Reserved req p.0 p.1 w.store s) (ground arith) m,
        ground arith,
        ground arith,
        ground arith,
      )
