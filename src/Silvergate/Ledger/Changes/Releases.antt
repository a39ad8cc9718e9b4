-- ===== src/Silvergate/Ledger/Changes/Releases.antt =====
-- The change that keeps the books in order where the amount of a failed refund is given back.
use distributed_payment_mana.Prelude.{
  ℕ, pos_part, some, List, [], ◌∷◌, ◌++◌, ◌≡◌, refl, arith, ◌+◌, ◌-ℤ◌, ◌≤◌, ◌<◌, All, Option-cases,
  inl, inr,
}
use native.Mathlib.Decide.{ℕ_discrete}
use distributed_payment_mana.Postgres.{Uuid, Time}
use distributed_payment_mana.Silvergate.Transaction.Entity.{Refund, Transaction}
use distributed_payment_mana.Silvergate.Tables.{TransactionRow, RefundRow, update_where, find}
use distributed_payment_mana.Silvergate.Tables.Rows.{
  IsKeyed, find-update_where, find-All, All-update_found, All-append, All-append_inv,
}
use distributed_payment_mana.Silvergate.Runtime.{Task}
use distributed_payment_mana.Silvergate.Transaction.Repo.{has_id}
use distributed_payment_mana.Silvergate.Transaction.Repo.Outcome.{released}
use distributed_payment_mana.Silvergate.Ledger.{
  paid_back, claim, task_claim, in_flight, owed_task, owed, reserved, TaskOk, Owned, RowOk, Books,
}
use distributed_payment_mana.Silvergate.Ledger.Sums.{
  in_flight-append, owed-append, reserved-update_ne, reserved-find, reserved-find-none,
}
use distributed_payment_mana.Silvergate.Ledger.Changes.{one-in_flight, one-owed, owed-le}
use distributed_payment_mana.Silvergate.Ledger.Changes.Refunds.{claim_self}

module _ (tx : Transaction) (r : Refund) where
  taken_row :
      (at : Time) (row : TransactionRow)
      → RowOk row
      → 0 < pos_part r.amount
      → pos_part r.amount ≤ pos_part row.refunded_amount
      → RowOk (released r.amount at row)
        × (pos_part (released r.amount at row).refunded_amount + pos_part r.amount
            ≡ pos_part row.refunded_amount)
  unfolding ◌-ℤ◌
  taken_row at row ok positive enough = ground arith

module _ {paid : Uuid → ℕ} (tx : Transaction) (r : Refund) {ts : List TransactionRow}
    {rs : List RefundRow} (tasks : List Task) where
  -- The amount of a refund that has failed is given back.
  pub Books-release :
      (at : Time) (t : Task) (new : List Task)
      → Books paid ts rs (tasks ++ t ∷ [])
      → Owned rs tx r
      → ((id : Uuid) → task_claim id t ≡ claim id tx r)
      → ((id : Uuid) → owed_task id t ≡ claim id tx r)
      → All (TaskOk rs) new
      → ((id : Uuid) → in_flight id new ≡ 0)
      → IsKeyed
          (λ (r : TransactionRow). r.id)
          (update_where (has_id tx.id) (released r.amount at) ts)
      → Books paid (update_where (has_id tx.id) (released r.amount at) ts) rs (tasks ++ new)
  Books-release at t new b owned claims owes new_ok idle keyed =
      elim (Option-cases (find (has_id tx.id) ts)) [
        | inl missing ↦ absurd (
            omega (
              arith,
              b.covered tx.id,
              reserved-find-none tx.id ts missing,
              in_flight-append tx.id tasks (t ∷ []),
              one-in_flight tx.id t,
              claims tx.id,
              claim_self tx r tx.id refl,
              owned.1,
            ))
        | inr (row, found) ↦ with_row row found
      ]
    where
      ts' : List TransactionRow
      ts' = update_where (has_id tx.id) (released r.amount at) ts

      enough :
          (row : TransactionRow)
          → find (has_id tx.id) ts ≡ some row
          → pos_part r.amount ≤ pos_part row.refunded_amount
      enough row found = omega (
        arith,
        b.covered tx.id,
        reserved-find tx.id ts row b.keyed found,
        in_flight-append tx.id tasks (t ∷ []),
        one-in_flight tx.id t,
        claims tx.id,
        claim_self tx r tx.id refl,
      )

      found' :
          (row : TransactionRow)
          → find (has_id tx.id) ts ≡ some row
          → find (has_id tx.id) ts' ≡ some (released r.amount at row)
      found' row found = ground (
        arith,
        found,
        find-update_where (λ (r : TransactionRow). r.id) tx.id (released r.amount at) (λ r. refl)
            tx.id ts,
      )

      covered :
          (row : TransactionRow)
          → find (has_id tx.id) ts ≡ some row
          → RowOk row
          → (id : Uuid) → paid_back id rs + in_flight id (tasks ++ new) ≤ reserved id ts'
      covered row found ok id = elim (ℕ_discrete tx.id id) [
        | yes e ↦
            let e1 = reserved-find tx.id ts row b.keyed found in
            let e2 = reserved-find tx.id ts' (released r.amount at row) keyed (found' row found) in
            rw (← e) (
              omega (
                arith,
                b.covered tx.id,
                e1,
                e2,
                (taken_row tx r at row ok owned.1 (enough row found)).1,
                in_flight-append tx.id tasks (t ∷ []),
                in_flight-append tx.id tasks new,
                one-in_flight tx.id t,
                claims tx.id,
                claim_self tx r tx.id refl,
                idle tx.id,
              ))
        | no ne ↦ omega (
          arith,
          b.covered id,
          reserved-update_ne id tx.id (has_id tx.id) (released r.amount at) (λ r t. ground arith)
              (λ r. refl) ne ts,
          in_flight-append id tasks (t ∷ []),
          in_flight-append id tasks new,
          idle id,
        )
      ]

      backed :
          (row : TransactionRow)
          → find (has_id tx.id) ts ≡ some row
          → RowOk row
          → (id : Uuid) → paid id + owed id (tasks ++ new) ≤ reserved id ts'
      backed row found ok id = elim (ℕ_discrete tx.id id) [
        | yes e ↦
            let e1 = reserved-find tx.id ts row b.keyed found in
            let e2 = reserved-find tx.id ts' (released r.amount at row) keyed (found' row found) in
            rw (← e) (
              omega (
                arith,
                b.backed tx.id,
                e1,
                e2,
                (taken_row tx r at row ok owned.1 (enough row found)).1,
                owed-append tx.id tasks (t ∷ []),
                owed-append tx.id tasks new,
                one-owed tx.id t,
                owes tx.id,
                claim_self tx r tx.id refl,
                owed-le tx.id new,
                idle tx.id,
              ))
        | no ne ↦ omega (
          arith,
          b.backed id,
          reserved-update_ne id tx.id (has_id tx.id) (released r.amount at) (λ r t. ground arith)
              (λ r. refl) ne ts,
          owed-append id tasks (t ∷ []),
          owed-append id tasks new,
          owed-le id new,
          idle id,
        )
      ]

      with_row :
          (row : TransactionRow)
          → find (has_id tx.id) ts ≡ some row
          → Books paid ts' rs (tasks ++ new)
      with_row row found =
          let ok = find-All RowOk (has_id tx.id) ts row b.rows_ok found in
          record {
            keyed = keyed;
            refunds_keyed = b.refunds_keyed;
            rows_ok =
                All-update_found (λ (r : TransactionRow). r.id) RowOk tx.id (released r.amount at)
                  ts row b.keyed found (taken_row tx r at row ok owned.1 (enough row found)).0
                  b.rows_ok;
            tasks_ok =
                All-append (TaskOk rs) tasks new
                  (All-append_inv (TaskOk rs) tasks (t ∷ []) b.tasks_ok).0 new_ok;
            covered = covered row found ok;
            backed = backed row found ok;
          }
