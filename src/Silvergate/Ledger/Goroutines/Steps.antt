-- ===== src/Silvergate/Ledger/Goroutines/Steps.antt =====
-- One step of each kind of goroutine keeps the books in order.
use distributed_payment_mana.Prelude.{
  ℕ, zero, suc, ℤ, List, [], ◌∷◌, ◌++◌, ◌==◌, ◌&&◌, ◌≡◌, ◌⊎◌, inl, inr, refl, sym, subst, ◌∙◌,
  arith, ◌≤◌, ◌+◌, All,
}
use distributed_payment_mana.Exec.{ok, ◌>>=◌}
use distributed_payment_mana.Exec.Outcome.{Result-cases}
use distributed_payment_mana.Postgres.{Uuid, ticked}
use distributed_payment_mana.Silvergate.Transaction.Entity.{
  Status, captured, capture_failed, capture_pending, status_eq, Transaction, Refund,
}
use distributed_payment_mana.Silvergate.Tables.{
  TransactionRow, RefundRow, Store, put_transactions, update_where,
}
use distributed_payment_mana.Silvergate.Tables.Rows.{
  put_transactions_ok, put_refunds_ok, All-update_where,
}
use distributed_payment_mana.Silvergate.Runtime.{
  Gateway, Outside, Task, settle, settle_write, refund, refund_write, release, refund_notify,
  void_notify,
}
use distributed_payment_mana.Silvergate.Sender.{send_capture_result, send_refund_result}
use distributed_payment_mana.Silvergate.Transaction.Repo.{
  has_id, compare_and_update_status, update_refund_status, release_refund_amount,
}
use distributed_payment_mana.Silvergate.Transaction.Repo.Outcome.{
  set_refund_status, released, compare_and_update_status_cases, compare_and_update_status-Quiet,
  update_refund_status_error, update_refund_status_ok, update_refund_status-Quiet,
  release_refund_amount_error, release_refund_amount_ok, release_refund_amount-Quiet,
}
use distributed_payment_mana.Silvergate.Transaction.Settlement.{run_task, write_next, release_next}
use distributed_payment_mana.Silvergate.Ledger.{
  Books, RowOk, TaskOk, Owned, task_claim, in_flight, owed, owed_task, bank_pays,
}
use distributed_payment_mana.Silvergate.Ledger.Changes.{Books-continue, Books-update}
use distributed_payment_mana.Silvergate.Ledger.Changes.Refunds.{Books-mark}
use distributed_payment_mana.Silvergate.Ledger.Changes.Releases.{Books-release}
use distributed_payment_mana.Silvergate.Ledger.Goroutines.{
  Kept, refund_outcome_lem, send_capture_same, send_refund_same, settle_finish_lem,
  settle_outcome_lem, settled-RowOk, write_next-TaskOk, write_next-claim, write_next-owed,
}

-- One step of each kind of goroutine `t`, among the others.
module _ (paid : Uuid → ℕ) (out : Outside) (w : Gateway) (others : List Task)
    (here : w.tasks ≡ others) where
  unchanged-Kept :
      (t : Task) (new : List Task)
      → Books paid w.store.transactions w.store.refunds (others ++ t ∷ [])
      → All (TaskOk w.store.refunds) new
      → ((id : Uuid) → in_flight id new ≤ task_claim id t)
      → ((id : Uuid) → owed id new ≤ owed_task id t)
      → (v : Gateway) → v.store ≡ w.store
      → v.tasks ≡ w.tasks
      → Kept paid others (ok new, v)
  unchanged-Kept t new b h less less' v st ta = (
    ta ∙ here,
    subst (λ (s : Store). Books paid s.transactions s.refunds (others ++ new)) (sym st)
        (Books-continue paid others t new b h less (λ id. omega (arith, less' id))),
  )

  pub settle-Kept :
      (tx : Transaction) (amount : ℤ)
      → Books paid w.store.transactions w.store.refunds (others ++ settle tx amount ∷ [])
      → Kept paid others (run_task out (settle tx amount) w)
  unfolding run_task ◌>>=◌
  settle-Kept tx amount b =
      let (next, e, n) = settle_outcome_lem out w tx amount in
      rw e (
        unchanged-Kept (settle tx amount) (settle_write tx next ∷ []) b (n, tt)
          (λ id. unfold in_flight in omega arith) (λ id. unfold owed in omega arith) (ticked w) refl
          refl)

  settled :
      (tx : Transaction) (next : Status)
      → (next ≡ captured) ⊎ (next ≡ capture_failed)
      → (v : Gateway)
      → v.store ≡ (compare_and_update_status out.env tx.id capture_pending next w).1.store
      → put_transactions
          (update_where
            (λ r. has_id tx.id r && status_eq r.status capture_pending)
            (λ r. record r { status = next; updated_at = out.env.now w.tick })
            w.store.transactions)
          w.store
        ≡ ok (compare_and_update_status out.env tx.id capture_pending next w).1.store
      → Books paid w.store.transactions w.store.refunds (others ++ [])
      → Books paid v.store.transactions v.store.refunds (others ++ [])
  settled tx next n v st put b =
      let p = λ (r : TransactionRow). has_id tx.id r && status_eq r.status capture_pending in
      let f = λ (r : TransactionRow). record r { status = next; updated_at = out.env.now w.tick } in
      let (st', checks, keyed) =
        put_transactions_ok (update_where p f w.store.transactions) w.store put in
      subst (λ (s : Store). Books paid s.transactions s.refunds (others ++ [])) (sym (st ∙ st'))
        (Books-update b p f (λ r. refl) (λ r. refl) keyed
          (All-update_where RowOk RowOk p f w.store.transactions
            (λ r h t. settled-RowOk r next (out.env.now w.tick) n (ground arith) h) (λ r h t. h)
            b.rows_ok))

  pub settle_write-Kept :
      (tx : Transaction) (next : Status)
      → Books paid w.store.transactions w.store.refunds (others ++ settle_write tx next ∷ [])
      → (next ≡ captured) ⊎ (next ≡ capture_failed)
      → Kept paid others (run_task out (settle_write tx next) w)
  unfolding run_task ◌>>=◌
  settle_write-Kept tx next b n =
      let (v, e, st, ta) = settle_finish_lem out w tx next in
      let (se', ta') = compare_and_update_status-Quiet out.env w tx.id capture_pending next in
      let b' =
        Books-continue paid others (settle_write tx next) [] b tt
          (λ id. unfold in_flight in omega arith) (λ id. unfold owed in omega arith) in
      rw e (elim (compare_and_update_status_cases out.env w tx.id capture_pending next) [
        | inl same ↦
            unchanged-Kept (settle_write tx next) [] b tt (λ id. unfold in_flight in omega arith)
              (λ id. unfold owed in omega arith) v (st ∙ same) (ta ∙ ta')
        | inr put ↦ (ta ∙ ta' ∙ here, settled tx next n v st put b')
      ])

  pub refund-Kept :
      (tx : Transaction) (r : Refund)
      → Books paid w.store.transactions w.store.refunds (others ++ refund tx r ∷ [])
      → Owned w.store.refunds tx r
      → Kept
          (λ id. paid id + bank_pays out w.tick (refund tx r) id)
          others
          (run_task out (refund tx r) w)
  unfolding run_task ◌>>=◌
  refund-Kept tx r b owned =
      let (marked, e, i, a, pays) = refund_outcome_lem out w tx r in
      rw e (
        here,
        Books-continue (λ id. paid id + bank_pays out w.tick (refund tx r) id) others (refund tx r)
            (refund_write tx marked ∷ []) b (ground arith, tt)
            (λ id. unfold in_flight in ground arith) (λ id. unfold owed in omega (arith, pays id)),
      )

  pub refund_notify-Kept :
      (tx : Transaction) (r : Refund)
      → Books paid w.store.transactions w.store.refunds (others ++ refund_notify tx r ∷ [])
      → Kept paid others (run_task out (refund_notify tx r) w)
  unfolding run_task ◌>>=◌
  refund_notify-Kept tx r b =
      let (st, ta) = send_refund_same out tx r w in
      unchanged-Kept (refund_notify tx r) [] b tt (λ id. unfold in_flight in omega arith)
        (λ id. unfold owed in omega arith) (send_refund_result out tx r w).1 st ta

  pub void_notify-Kept :
      (tx : Transaction)
      → Books paid w.store.transactions w.store.refunds (others ++ void_notify tx ∷ [])
      → Kept paid others (run_task out (void_notify tx) w)
  unfolding run_task ◌>>=◌
  void_notify-Kept tx b =
      let (st, ta) = send_capture_same out tx w in
      unchanged-Kept (void_notify tx) [] b tt (λ id. unfold in_flight in omega arith)
        (λ id. unfold owed in omega arith) (send_capture_result out tx w).1 st ta

  pub refund_write-Kept :
      (tx : Transaction) (r : Refund)
      → Books paid w.store.transactions w.store.refunds (others ++ refund_write tx r ∷ [])
      → Owned w.store.refunds tx r
      → Kept paid others (run_task out (refund_write tx r) w)
  unfolding run_task ◌>>=◌
  refund_write-Kept tx r b owned =
      let u = (update_refund_status out.env r w).1 in
      let (se, ta) = update_refund_status-Quiet out.env w r in
      elim (Result-cases (update_refund_status out.env r w).0) [
        | inl (x, e) ↦
            let (st, checks, keyed) =
              put_refunds_ok
                (update_where (λ (row : RefundRow). row.id == r.id) (set_refund_status r)
                  w.store.refunds)
                w.store (update_refund_status_ok out.env w r e) in
            (
              ta ∙ here,
              subst
                  (λ (s : Store).
                    Books paid s.transactions s.refunds
                      (others ++ (write_next tx r (update_refund_status out.env r w).0)))
                  (sym st)
                  (rw e (
                    Books-mark tx r others (refund_write tx r) (write_next tx r (ok x)) b owned
                      (λ id. refl) (write_next-TaskOk tx r x w.store.refunds owned)
                      (write_next-claim tx r x) (write_next-owed tx r x) keyed)),
            )
        | inr (x, e) ↦ (
          ta ∙ here,
          subst
              (λ (s : Store).
                Books paid s.transactions s.refunds
                  (others ++ (write_next tx r (update_refund_status out.env r w).0)))
              (sym (update_refund_status_error out.env w r e))
              (rw e (
                Books-continue paid others (refund_write tx r) [] b tt
                  (λ id. unfold in_flight in omega arith) (λ id. unfold owed in omega arith))),
        )
      ]

  pub release-Kept :
      (n : ℕ) (tx : Transaction) (r : Refund)
      → Books paid w.store.transactions w.store.refunds (others ++ release n tx r ∷ [])
      → Owned w.store.refunds tx r
      → Kept paid others (run_task out (release n tx r) w)
  unfolding run_task ◌>>=◌
  release-Kept zero tx r b owned =
      unchanged-Kept (release zero tx r) (refund_notify tx r ∷ []) b (tt, tt)
        (λ id. unfold in_flight in omega arith) (λ id. unfold owed in omega arith) w refl refl
  release-Kept (suc n) tx r b owned =
      let (se, ta) = release_refund_amount-Quiet out.env w tx.id r.amount in
      elim (Result-cases (release_refund_amount out.env tx.id r.amount w).0) [
        | inl (x, e) ↦
            let (st, checks, keyed) =
              put_transactions_ok
                (update_where (has_id tx.id) (released r.amount (out.env.now w.tick))
                  w.store.transactions)
                w.store (release_refund_amount_ok out.env w tx.id r.amount e) in
            (
              ta ∙ here,
              subst
                  (λ (s : Store). Books paid s.transactions s.refunds (
                    others
                    ++ release_next n tx r (release_refund_amount out.env tx.id r.amount w).0))
                  (sym st)
                  (rw e (
                    Books-release tx r others (out.env.now w.tick) (release (suc n) tx r)
                      (refund_notify tx r ∷ []) b owned (λ id. refl) (λ id. refl) (tt, tt)
                      (λ id. unfold in_flight in omega arith) keyed)),
            )
        | inr (x, e) ↦ (
          ta ∙ here,
          subst
              (λ (s : Store).
                Books paid s.transactions s.refunds (
                  others ++ release_next n tx r (release_refund_amount out.env tx.id r.amount w).0))
              (sym (release_refund_amount_error out.env w tx.id r.amount e))
              (rw e (
                Books-continue paid others (release (suc n) tx r) (release n tx r ∷ []) b
                  (owned, tt) (λ id. unfold in_flight in omega arith)
                  (λ id. unfold owed in omega arith))),
        )
      ]
