-- ===== src/Silvergate/Machine/Refunds.antt =====
-- Refunds under every interleaving of requests and goroutines.
use distributed_payment_mana.Prelude.{
  ℕ, pos_part, List, [], ◌∷◌, ◌++◌, some, ◌≡◌, refl, sym, subst, arith, ◌+◌, ◌≤◌,
}
use distributed_payment_mana.Exec.{Result, ok, err}
use distributed_payment_mana.Postgres.{Uuid}
use distributed_payment_mana.Silvergate.Errors.{Error}
use distributed_payment_mana.Silvergate.Tables.{TransactionRow, find, clashes}
use distributed_payment_mana.Silvergate.Tables.Rows.{find-All, All-append_inv}
use distributed_payment_mana.Silvergate.Runtime.{Gateway, Outside, Task}
use distributed_payment_mana.Silvergate.Transaction.Repo.{has_id}
use distributed_payment_mana.Silvergate.Transaction.Settlement.{run_task}
use distributed_payment_mana.Silvergate.Product.Service.{archive, unarchive}
use distributed_payment_mana.Silvergate.Product.Entity
use distributed_payment_mana.Silvergate.Ledger.{
  Books, Ledger, RowOk, TaskOk, paid_back, in_flight, reserved, owed, bank_pays,
}
use distributed_payment_mana.Silvergate.Ledger.Sums.{reserved-find}
use distributed_payment_mana.Silvergate.Ledger.Changes.{Books-move, Books-less}
use distributed_payment_mana.Silvergate.Ledger.Goroutines.{Kept}
use distributed_payment_mana.Silvergate.Ledger.Goroutines.Steps.{
  settle-Kept, settle_write-Kept, refund-Kept, refund_write-Kept, release-Kept, refund_notify-Kept,
  void_notify-Kept,
}
use distributed_payment_mana.Silvergate.Ledger.Keeps.{Keeps-create, Keeps-update, Keeps-set_status}
use distributed_payment_mana.Silvergate.Ledger.Keeps.Handlers.{
  Keeps-authorize, Keeps-capture, Keeps-refund_payment, Keeps-void, Keeps-purchase,
}
use distributed_payment_mana.Silvergate.Machine.{
  Request, to_authorize, to_capture, to_refund, to_void, to_purchase, to_create, to_update,
  to_archive, to_unarchive, handle, resume, rest_of, Step, request, goes_on, Reach, here, next,
  start,
}

handle-Ledger :
    {paid : Uuid → ℕ} (out : Outside) (r : Request) (w : Gateway)
    → Ledger paid w
    → Ledger paid (handle out r w)
unfolding handle archive unarchive
handle-Ledger out (to_authorize req) w = (Keeps-authorize out req).at w
handle-Ledger out (to_capture req) w = (Keeps-capture out req).at w
handle-Ledger out (to_refund req) w = (Keeps-refund_payment out req).at w
handle-Ledger out (to_void id) w = (Keeps-void out id).at w
handle-Ledger out (to_purchase req) w = (Keeps-purchase out req).at w
handle-Ledger out (to_create merchant input) w = (Keeps-create out.env merchant input).at w
handle-Ledger out (to_update merchant id req) w = (Keeps-update out.env merchant id req).at w
handle-Ledger out (to_archive merchant id) w =
    (Keeps-set_status out.env merchant id Entity.Status.archived).at w
handle-Ledger out (to_unarchive merchant id) w =
    (Keeps-set_status out.env merchant id Entity.Status.active).at w

-- What the bank has paid back on a transaction after a step of a goroutine.
abbrev with_step : (Uuid → ℕ) → Outside → ℕ → Task → Uuid → ℕ
with_step paid out n t id = paid id + bank_pays out n t id

-- A goroutine at any point keeps the books, with what the bank pays, and never stops with an error.
run_task-Kept :
    (paid : Uuid → ℕ) (out : Outside) (w : Gateway) (t : Task)
    → Books paid w.store.transactions w.store.refunds (w.tasks ++ t ∷ [])
    → Kept (with_step paid out w.tick t) w.tasks (run_task out t w)
unfolding bank_pays
run_task-Kept paid out w t b =
    at t b (All-append_inv (TaskOk w.store.refunds) w.tasks (t ∷ []) b.tasks_ok).1.0
  where
    later : Task → Uuid → ℕ
    later t = with_step paid out w.tick t

    at :
        (t : Task)
        → Books paid w.store.transactions w.store.refunds (w.tasks ++ t ∷ [])
        → TaskOk w.store.refunds t
        → Kept (with_step paid out w.tick t) w.tasks (run_task out t w)
    at (Task.settle tx amount) b h =
        let p = later (Task.settle tx amount) in
        settle-Kept p out w w.tasks refl tx amount (Books-less p b (λ id. omega arith))
    at (Task.settle_write tx s) b h =
        let p = later (Task.settle_write tx s) in
        settle_write-Kept p out w w.tasks refl tx s (Books-less p b (λ id. omega arith)) h
    at (Task.refund tx r) b h = refund-Kept paid out w w.tasks refl tx r b h
    at (Task.refund_write tx r) b h =
        let p = later (Task.refund_write tx r) in
        refund_write-Kept p out w w.tasks refl tx r (Books-less p b (λ id. omega arith)) h
    at (Task.release n tx r) b h =
        let p = later (Task.release n tx r) in
        release-Kept p out w w.tasks refl n tx r (Books-less p b (λ id. omega arith)) h
    at (Task.refund_notify tx r) b h =
        let p = later (Task.refund_notify tx r) in
        refund_notify-Kept p out w w.tasks refl tx r (Books-less p b (λ id. omega arith))
    at (Task.void_notify tx) b h =
        let p = later (Task.void_notify tx) in
        void_notify-Kept p out w w.tasks refl tx (Books-less p b (λ id. omega arith))

Kept-Books :
    {paid : Uuid → ℕ} (others : List Task) (p : Result Error (List Task) × Gateway)
    → Kept paid others p
    → Books paid p.1.store.transactions p.1.store.refunds (p.1.tasks ++ rest_of p.0)
Kept-Books others (ok new, v) (ta, b) = rw ta b
Kept-Books others (err e, v) k = absurd k

-- What the bank pays back on a transaction in a step, and in a run from a gateway.
unfoldable pub step_pays : {out : Outside} {w v : Gateway} → Step out w v → Uuid → ℕ
unfolding bank_pays
step_pays (request r e) id = 0
step_pays {out} {w} (goes_on xs t ys at e) id = bank_pays out w.tick t id

unfoldable pub run_pays : {out : Outside} {s w : Gateway} → Reach out s w → Uuid → ℕ
unfolding step_pays
run_pays here id = 0
run_pays (next r s) id = run_pays r id + step_pays s id

-- The books stay in order under a request, whatever it is and whether it succeeds, and when a
-- goroutine goes on by one of its parts: identifiers stay unique, each row keeps its amounts within
-- each other and in agreement with its status, and what was paid back or may still be is covered by
-- what is reserved; this both by the rows of the refunds that are marked as paid, and by what the
-- bank has paid by its own answers, the payment of this step included.
pub Step-Ledger :
    {paid : Uuid → ℕ} {out : Outside} {w v : Gateway} (s : Step out w v)
    → Ledger paid w
    → Ledger (λ id. paid id + step_pays s id) v
unfolding resume step_pays
Step-Ledger {paid} {out} {w} (request r e) h =
    subst (Ledger (λ id. paid id + 0)) (sym e)
      (handle-Ledger out r w (Books-less (λ id. paid id + 0) h (λ id. omega arith)))
Step-Ledger {paid} {out} {w} (goes_on xs t ys at e) h =
    let b : Books paid w.store.transactions w.store.refunds ((xs ++ ys) ++ t ∷ []) =
      Books-move xs t ys
        (subst (λ (ts : List Task). Books paid w.store.transactions w.store.refunds ts) at h) in
    let u : Gateway = record w { tasks = xs ++ ys } in
    subst (Ledger (with_step paid out w.tick t)) (sym e)
      (Kept-Books (xs ++ ys) (run_task out t u) (run_task-Kept paid out u t b))

pub start-Ledger : Ledger (λ id. 0) start
unfolding paid_back in_flight reserved owed
start-Ledger = record {
  keyed = unfold clashes in refl;
  refunds_keyed = unfold clashes in refl;
  rows_ok = tt;
  tasks_ok = tt;
  covered = λ id. omega arith;
  backed = λ id. omega arith;
}

pub Reach-Ledger : {out : Outside} {w : Gateway} (r : Reach out start w) → Ledger (run_pays r) w
unfolding run_pays
Reach-Ledger here = start-Ledger
Reach-Ledger (next r s) = Step-Ledger s (Reach-Ledger r)

-- Whatever requests, bank answers, faults of the database that leave a failed statement unapplied,
-- and orders of the goroutines there were: what the bank has paid back on a transaction by its own
-- answers, with what the goroutines may still have it pay or give back, is at most the
-- refunded_amount of the row; so is what the rows marked as paid say, with what is in flight; and the
-- refunded_amount is at most the amount.
pub refunds_covered :
    (out : Outside) (w : Gateway) (reached : Reach out start w) (id : Uuid) (row : TransactionRow)
    → find (has_id id) w.store.transactions ≡ some row
    → (run_pays reached id + owed id w.tasks ≤ pos_part row.refunded_amount)
      × (paid_back id w.store.refunds + in_flight id w.tasks ≤ pos_part row.refunded_amount)
      × (pos_part row.refunded_amount ≤ pos_part row.amount)
refunds_covered out w reached id row found =
    let b = Reach-Ledger reached in
    let row_ok = find-All RowOk (has_id id) w.store.transactions row b.rows_ok found in
    (
      omega (arith, b.backed id, reserved-find id w.store.transactions row b.keyed found),
      omega (arith, b.covered id, reserved-find id w.store.transactions row b.keyed found),
      row_ok.within,
    )
