-- ===== src/Silvergate/Ledger/Goroutines.antt =====
-- What the calls of a goroutine send and write, for its steps to keep the books in order wherever it
-- stands among the others.
pub mod Steps
use distributed_payment_mana.Prelude.{
  ℕ, zero, suc, ℤ, pos_part, true, List, [], ◌∷◌, ◌++◌, ◌==◌, ◌&&◌, ◌≡◌, ◌⊎◌, inl, inr, refl, sym,
  subst, ◌∙◌, arith, ◌+◌, ◌≤◌, All, if◌then◌else◌,
}
use distributed_payment_mana.Exec.{Result, ok, err, ◌>>=◌}
use distributed_payment_mana.Exec.Outcome.{Result-cases}
use distributed_payment_mana.Postgres.{Uuid, Time, ticked, now}
use distributed_payment_mana.Silvergate.Errors.{Error}
use distributed_payment_mana.Silvergate.Acquirer.{BankResult}
use distributed_payment_mana.Silvergate.Transaction.Entity.{
  Status, captured, capture_failed, capture_pending, status_eq, Transaction, Refund, mark_refunded,
  mark_failed,
}
use distributed_payment_mana.Silvergate.Tables.{
  TransactionRow, RefundRow, Store, put_transactions, update_where,
}
use distributed_payment_mana.Silvergate.Tables.Rows.{
  put_transactions_ok, put_refunds_ok, All-update_where,
}
use distributed_payment_mana.Silvergate.Runtime.{
  Gateway, Outside, Task, settle, settle_write, refund, refund_write, release, refund_notify,
  void_notify,
}
use distributed_payment_mana.Silvergate.Sender.{send_event, send_capture_result, send_refund_result}
use distributed_payment_mana.Silvergate.Transaction.Repo.{
  has_id, compare_and_update_status, update_refund_status, release_refund_amount,
}
use distributed_payment_mana.Silvergate.Transaction.Repo.Outcome.{
  set_refund_status, released, compare_and_update_status_cases, compare_and_update_status-Quiet,
  update_refund_status_error, update_refund_status_ok, update_refund_status-Quiet,
  release_refund_amount_error, release_refund_amount_ok, release_refund_amount-Quiet,
}
use distributed_payment_mana.Silvergate.Transaction.Service.{ask}
use distributed_payment_mana.Silvergate.Transaction.Settlement.{
  next_status, settle_outcome, settle_finish, refund_outcome, run_task, write_next, release_next,
}
use distributed_payment_mana.Silvergate.Ledger.{
  Books, RowOk, TaskOk, Owned, task_claim, claim, in_flight, is_done, owed, owed_task, bank_pays,
}
use distributed_payment_mana.Silvergate.Ledger.Changes.{Books-continue, Books-update}
use distributed_payment_mana.Silvergate.Ledger.Changes.Refunds.{Books-mark}
use distributed_payment_mana.Silvergate.Ledger.Changes.Releases.{Books-release}

-- What a step of a goroutine has left: the others, and the rest of its own.
abbrev pub Kept : (Uuid → ℕ) → List Task → Result Error (List Task) × Gateway → Type 0
Kept paid others (ok new, v) =
    (v.tasks ≡ others) × Books paid v.store.transactions v.store.refunds (others ++ new)
Kept paid others (err e, v) = ⊥

pub send_capture_same :
    (out : Outside) (tx : Transaction) (w : Gateway)
    → ((send_capture_result out tx w).1.store ≡ w.store)
      × ((send_capture_result out tx w).1.tasks ≡ w.tasks)
unfolding send_capture_result send_event now ◌>>=◌
send_capture_same out tx w = (refl, refl)

pub send_refund_same :
    (out : Outside) (tx : Transaction) (r : Refund) (w : Gateway)
    → ((send_refund_result out tx r w).1.store ≡ w.store)
      × ((send_refund_result out tx r w).1.tasks ≡ w.tasks)
unfolding send_refund_result send_event now ◌>>=◌
send_refund_same out tx r w = (refl, refl)

next_status_cases :
    (r : Result Error BankResult) → (next_status r ≡ captured) ⊎ (next_status r ≡ capture_failed)
unfolding next_status
next_status_cases r = ground arith

module _ (out : Outside) (w : Gateway) where
  pub settle_outcome_lem :
      (tx : Transaction) (amount : ℤ)
      → (next : Status) × (settle_outcome out tx amount w ≡ (ok next, ticked w))
        × ((next ≡ captured) ⊎ (next ≡ capture_failed))
  unfolding settle_outcome ask ◌>>=◌
  settle_outcome_lem tx amount = (_, refl, next_status_cases _)

  -- Marking a refund leaves nothing owed exactly when the bank has paid.
  pub refund_outcome_lem :
      (tx : Transaction) (r : Refund)
      → (marked : Refund) × (refund_outcome out tx r w ≡ (ok marked, ticked (ticked w)))
        × (marked.id ≡ r.id)
        × (marked.amount ≡ r.amount)
        × ((id : Uuid)
            → bank_pays out w.tick (refund tx r) id + owed_task id (refund_write tx marked)
              ≡ claim id tx r)
  unfolding refund_outcome ask now mark_refunded mark_failed ◌>>=◌ bank_pays
  refund_outcome_lem tx r = (_, refl, ground arith, ground arith, λ id. ground arith)

  pub settle_finish_lem :
      (tx : Transaction) (next : Status)
      → let u = (compare_and_update_status out.env tx.id capture_pending next w).1 in
        (v : Gateway) × (settle_finish out tx next w ≡ (ok tt, v))
        × (v.store ≡ u.store)
        × (v.tasks ≡ u.tasks)
  unfolding settle_finish ◌>>=◌
  settle_finish_lem tx next =
      let u = (compare_and_update_status out.env tx.id capture_pending next w).1 in
      let same = send_capture_same out tx u in
      ((settle_finish out tx next w).1, ground arith, ground arith, ground arith)

pub settled-RowOk :
    (r : TransactionRow) (next : Status) (at : Time)
    → (next ≡ captured) ⊎ (next ≡ capture_failed)
    → status_eq r.status capture_pending ≡ true
    → RowOk r
    → RowOk (record r { status = next; updated_at = at })
settled-RowOk r next at n e h = ground arith

pub write_next-TaskOk :
    (tx : Transaction) (r : Refund) (x : Unit {0}) (rs : List RefundRow)
    → Owned rs tx r
    → All (TaskOk rs) (write_next tx r (ok x))
write_next-TaskOk tx r x rs owned = ground arith

pub write_next-claim :
    (tx : Transaction) (r : Refund) (x : Unit {0}) (id : Uuid)
    → in_flight id (write_next tx r (ok x))
        + (if tx.id == id && is_done r.status then pos_part r.amount else 0)
      ≤ claim id tx r
unfolding in_flight
write_next-claim tx r x id = ground arith

pub write_next-owed :
    (tx : Transaction) (r : Refund) (x : Unit {0}) (id : Uuid)
    → owed id (write_next tx r (ok x)) ≤ owed_task id (refund_write tx r)
unfolding owed
write_next-owed tx r x id = ground arith
