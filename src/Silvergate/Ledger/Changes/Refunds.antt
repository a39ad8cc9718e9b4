-- ===== src/Silvergate/Ledger/Changes/Refunds.antt =====
-- The changes that keep the books in order, for a refund that is reserved or marked.
use distributed_payment_mana.Prelude.{
  ℕ, pos_part, some, List, [], ◌∷◌, ◌++◌, ◌&&◌, ◌==◌, ◌≡◌, ◌≢◌, refl, arith, ◌+◌, ◌≤◌, ◌<◌, All,
  if◌then◌else◌,
}
use native.Mathlib.Decide.{ℕ_discrete}
use distributed_payment_mana.Postgres.{Uuid}
use distributed_payment_mana.Silvergate.Transaction.Entity.{refund_pending, Refund, Transaction}
use distributed_payment_mana.Silvergate.Tables.{TransactionRow, RefundRow, update_where, find}
use distributed_payment_mana.Silvergate.Tables.Rows.{
  IsKeyed, find-update_where, All-update_found, All-append, All-append_inv, All-map,
}
use distributed_payment_mana.Silvergate.Runtime.{Task, refund}
use distributed_payment_mana.Silvergate.Transaction.Repo.{has_id}
use distributed_payment_mana.Silvergate.Transaction.Repo.Outcome.{
  set_refund_status, set_refund, refund_row,
}
use distributed_payment_mana.Silvergate.Ledger.{
  is_done, paid_back, claim, task_claim, in_flight, owed_task, owed, reserved, TaskOk, Owned, RowOk,
  Books,
}
use distributed_payment_mana.Silvergate.Ledger.Sums.{
  paid_back-append, in_flight-append, owed-append, reserved-update_ne, reserved-find,
  paid_back-update, owner-append, owner-append_new, owner-update,
}
use distributed_payment_mana.Silvergate.Ledger.Changes.{TaskOk-of_owner, one-in_flight, one-owed}

module _ (tx : Transaction) (r : Refund) where
  one_pending : (id : Uuid) → r.status ≡ refund_pending → paid_back id (refund_row r ∷ []) ≡ 0
  unfolding paid_back
  one_pending id h = ground arith

  pub claim_self : (id : Uuid) → tx.id ≡ id → claim id tx r ≡ pos_part r.amount
  claim_self id e = ground arith

  pub claim_other : (id : Uuid) → tx.id ≢ id → claim id tx r ≡ 0
  claim_other id e = ground arith

  marked_claim :
      (id : Uuid)
      → (if tx.id == id && is_done r.status then pos_part r.amount else 0) ≤ claim id tx r
  marked_claim id = ground arith

module _ {paid : Uuid → ℕ} (tx : Transaction) (r : Refund) {ts : List TransactionRow}
    {rs : List RefundRow} (tasks : List Task) where
  -- A refund is reserved, its row inserted, and its goroutine started.
  pub Books-refund :
      (row : TransactionRow)
      → Books paid ts rs tasks
      → find (has_id tx.id) ts ≡ some row
      → row.id ≡ tx.id
      → pos_part tx.refunded_amount ≡ pos_part row.refunded_amount + pos_part r.amount
      → RowOk (set_refund tx row)
      → r.status ≡ refund_pending
      → r.transaction_id ≡ tx.id
      → 0 < pos_part r.amount
      → IsKeyed (λ (r : TransactionRow). r.id) (update_where (has_id tx.id) (set_refund tx) ts)
      → IsKeyed (λ (r : RefundRow). r.id) (rs ++ refund_row r ∷ [])
      → Books paid
          (update_where (has_id tx.id) (set_refund tx) ts)
          (rs ++ refund_row r ∷ [])
          (tasks ++ refund tx r ∷ [])
  Books-refund row b found at_id sum row_ok pending owned positive keyed keyed' = record {
    keyed = keyed;
    refunds_keyed = keyed';
    rows_ok =
        All-update_found (λ (r : TransactionRow). r.id) RowOk tx.id (set_refund tx) ts row b.keyed
          found row_ok b.rows_ok;
    tasks_ok =
        All-append (TaskOk rs') tasks (refund tx r ∷ [])
          (All-map (TaskOk rs) (TaskOk rs') tasks
            (TaskOk-of_owner rs rs' (λ i o e. owner-append i rs (refund_row r ∷ []) e)) b.tasks_ok)
          ((rw (← owned) (owner-append_new rs (refund_row r) keyed'), positive), tt);
    covered = covered;
    backed = backed;
  }
    where
      rs' : List RefundRow
      rs' = rs ++ refund_row r ∷ []

      ts' : List TransactionRow
      ts' = update_where (has_id tx.id) (set_refund tx) ts

      found' : find (has_id tx.id) ts' ≡ some (set_refund tx row)
      found' = ground (
        arith,
        found,
        find-update_where (λ (r : TransactionRow). r.id) tx.id (set_refund tx) (λ r. refl) tx.id ts,
      )

      covered :
          (id : Uuid)
          → paid_back id rs' + in_flight id (tasks ++ refund tx r ∷ []) ≤ reserved id ts'
      covered id = elim (ℕ_discrete tx.id id) [
        | yes e ↦
            let e1 = reserved-find tx.id ts row b.keyed found in
            let e2 = reserved-find tx.id ts' (set_refund tx row) keyed found' in
            rw (← e) (
              omega (
                arith,
                b.covered tx.id,
                e1,
                e2,
                sum,
                in_flight-append tx.id tasks (refund tx r ∷ []),
                one-in_flight tx.id (refund tx r),
                claim_self tx r tx.id refl,
                paid_back-append tx.id rs (refund_row r ∷ []),
                one_pending tx r tx.id pending,
              ))
        | no ne ↦ omega (
          arith,
          b.covered id,
          reserved-update_ne id tx.id (has_id tx.id) (set_refund tx) (λ r t. ground arith)
              (λ r. refl) ne ts,
          in_flight-append id tasks (refund tx r ∷ []),
          one-in_flight id (refund tx r),
          claim_other tx r id ne,
          paid_back-append id rs (refund_row r ∷ []),
          one_pending tx r id pending,
        )
      ]

      backed : (id : Uuid) → paid id + owed id (tasks ++ refund tx r ∷ []) ≤ reserved id ts'
      backed id = elim (ℕ_discrete tx.id id) [
        | yes e ↦
            let e1 = reserved-find tx.id ts row b.keyed found in
            let e2 = reserved-find tx.id ts' (set_refund tx row) keyed found' in
            rw (← e) (
              omega (
                arith,
                b.backed tx.id,
                e1,
                e2,
                sum,
                owed-append tx.id tasks (refund tx r ∷ []),
                one-owed tx.id (refund tx r),
                claim_self tx r tx.id refl,
              ))
        | no ne ↦ omega (
          arith,
          b.backed id,
          reserved-update_ne id tx.id (has_id tx.id) (set_refund tx) (λ r t. ground arith)
              (λ r. refl) ne ts,
          owed-append id tasks (refund tx r ∷ []),
          one-owed id (refund tx r),
          claim_other tx r id ne,
        )
      ]

  -- The row of a refund is marked. `new` is what is left of the goroutine: it may claim the amount
  -- again only if the bank did not pay.
  pub Books-mark :
      (t : Task) (new : List Task)
      → Books paid ts rs (tasks ++ t ∷ [])
      → Owned rs tx r
      → ((id : Uuid) → task_claim id t ≡ claim id tx r)
      → All (TaskOk rs) new
      → ((id : Uuid)
          → in_flight id new + (if tx.id == id && is_done r.status then pos_part r.amount else 0)
            ≤ claim id tx r)
      → ((id : Uuid) → owed id new ≤ owed_task id t)
      → IsKeyed
          (λ (r : RefundRow). r.id)
          (update_where (λ (row : RefundRow). row.id == r.id) (set_refund_status r) rs)
      → Books paid ts
          (update_where (λ (row : RefundRow). row.id == r.id) (set_refund_status r) rs)
          (tasks ++ new)
  Books-mark t new b owned claims new_ok less less' keyed = record {
    keyed = b.keyed;
    refunds_keyed = keyed;
    rows_ok = b.rows_ok;
    tasks_ok =
        All-map (TaskOk rs) (TaskOk rs') (tasks ++ new)
          (TaskOk-of_owner rs rs' (λ i o e. rw (owner-update i r rs) e))
          (All-append (TaskOk rs) tasks new (All-append_inv (TaskOk rs) tasks (t ∷ []) b.tasks_ok).0
            new_ok);
    covered = λ id. omega (
      arith,
      b.covered id,
      less id,
      claims id,
      one-in_flight id t,
      in_flight-append id tasks (t ∷ []),
      in_flight-append id tasks new,
      paid_back-update id r tx.id r.amount rs b.refunds_keyed owned.0,
    );
    backed = λ id. omega (
      arith,
      b.backed id,
      less' id,
      one-owed id t,
      owed-append id tasks (t ∷ []),
      owed-append id tasks new,
    );
  }
    where
      rs' : List RefundRow
      rs' = update_where (λ (row : RefundRow). row.id == r.id) (set_refund_status r) rs
