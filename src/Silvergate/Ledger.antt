-- ===== src/Silvergate/Ledger.antt =====
-- The accounts of the refunds of services/silvergate: what is paid back, what is on its way, and
-- what is reserved for it.
pub mod Sums
pub mod Changes
pub mod Requests
pub mod Goroutines
pub mod Keeps
use distributed_payment_mana.Prelude.{
  ℕ, ℤ, pos_part, neg_part, Bool, true, false, Option, none, some, List, [], ◌∷◌, ◌&&◌, ◌==◌, ◌≡◌,
  ◌⊎◌, ◌+◌, ◌≤◌, ◌<◌, suc, max_int64, All, if◌then◌else◌,
}
use distributed_payment_mana.Exec.{Result, ok, err}
use distributed_payment_mana.Postgres.{Uuid}
use distributed_payment_mana.Silvergate.Acquirer.{BankResult, Unreachable}
use distributed_payment_mana.Silvergate.Transaction.Entity.{
  Status, captured, capture_failed, partially_refunded, refunded, RefundStatus, refund_done,
  refund_failed, Transaction, Refund,
}
use distributed_payment_mana.Silvergate.Tables.{TransactionRow, RefundRow}
use distributed_payment_mana.Silvergate.Tables.Rows.{IsKeyed}
use distributed_payment_mana.Silvergate.Runtime.{
  Gateway, Outside, Task, settle_write, refund, refund_write, release,
}

abbrev pub is_done : RefundStatus → Bool
is_done refund_done = true
is_done _ = false

-- The amount of the refunds of a transaction whose rows are marked as paid.
unfoldable pub paid_back : Uuid → List RefundRow → ℕ
paid_back id [] = 0
paid_back id (r ∷ rs) =
    (if r.transaction_id == id && is_done r.status then pos_part r.amount else 0) + paid_back id rs

abbrev pub claim : Uuid → Transaction → Refund → ℕ
claim id tx r = if tx.id == id then pos_part r.amount else 0

-- What a goroutine may still pay back for a transaction, or give back to it.
abbrev pub task_claim : Uuid → Task → ℕ
task_claim id (refund tx r) = claim id tx r
task_claim id (refund_write tx r) = claim id tx r
task_claim id (release n tx r) = claim id tx r
task_claim id _ = 0

unfoldable pub in_flight : Uuid → List Task → ℕ
in_flight id [] = 0
in_flight id (t ∷ ts) = task_claim id t + in_flight id ts

-- What a goroutine still owes: a refund that the bank has paid already is no claim any more.
abbrev pub owed_task : Uuid → Task → ℕ
owed_task id (refund_write tx r) = if is_done r.status then 0 else claim id tx r
owed_task id t = task_claim id t

unfoldable pub owed : Uuid → List Task → ℕ
owed id [] = 0
owed id (t ∷ ts) = owed_task id t + owed id ts

-- The column refunded_amount of a transaction.
unfoldable pub reserved : Uuid → List TransactionRow → ℕ
reserved id [] = 0
reserved id (r ∷ rs) = (if r.id == id then pos_part r.refunded_amount else 0) + reserved id rs

-- The transaction and the amount of a refund.
unfoldable pub owner : Uuid → List RefundRow → Option (Uuid × ℤ)
owner id [] = none
owner id (r ∷ rs) = if r.id == id then some (r.transaction_id, r.amount) else owner id rs

abbrev pub Owned : List RefundRow → Transaction → Refund → Type 0
Owned refunds tx r = (owner r.id refunds ≡ some (tx.id, r.amount)) × (0 < pos_part r.amount)

abbrev pub TaskOk : List RefundRow → Task → Type 0
TaskOk refunds (settle_write tx next) = (next ≡ captured) ⊎ (next ≡ capture_failed)
TaskOk refunds (refund tx r) = Owned refunds tx r
TaskOk refunds (refund_write tx r) = Owned refunds tx r
TaskOk refunds (release n tx r) = Owned refunds tx r
TaskOk refunds _ = Unit

-- The status says how much of the amount is reserved for refunds.
abbrev pub StatusOk : Status → ℕ → ℕ → Type 0
StatusOk partially_refunded taken amount = (0 < taken) × (taken < amount)
StatusOk refunded taken amount = (0 < taken) × (taken ≡ amount)
StatusOk _ taken amount = taken ≡ 0

pub record RowOk (r : TransactionRow) : Type 0 where
  pub nonneg : neg_part r.refunded_amount ≡ 0
  pub within : pos_part r.refunded_amount ≤ pos_part r.amount
  pub amount_max : pos_part r.amount ≤ max_int64
  pub amount_min : neg_part r.amount ≤ suc max_int64
  pub status : StatusOk r.status (pos_part r.refunded_amount) (pos_part r.amount)

-- The books are in order: each row has its place, and what was paid back or is on its way was
-- reserved. `paid` is what the bank has paid back on each transaction, by its own answers, whatever
-- the rows of the refunds say.
pub record Books (paid : Uuid → ℕ) (rows : List TransactionRow) (refunds : List RefundRow)
    (tasks : List Task) : Type 0 where
  pub keyed : IsKeyed (λ (r : TransactionRow). r.id) rows
  pub refunds_keyed : IsKeyed (λ (r : RefundRow). r.id) refunds
  pub rows_ok : All RowOk rows
  pub tasks_ok : All (TaskOk refunds) tasks
  pub backed : (id : Uuid) → paid id + owed id tasks ≤ reserved id rows
  pub covered : (id : Uuid) → paid_back id refunds + in_flight id tasks ≤ reserved id rows

abbrev pub Ledger : (Uuid → ℕ) → Gateway → Type 0
Ledger paid w = Books paid w.store.transactions w.store.refunds w.tasks

abbrev accepted : Result Unreachable BankResult → Bool
accepted (ok r) = r.success
accepted (err e) = false

-- What the bank pays back on a transaction when a goroutine goes on at so many calls: it does where
-- the goroutine is at its call of the bank, and the bank answers a refund of that amount of that
-- transaction with success.
unfoldable pub bank_pays : Outside → ℕ → Task → Uuid → ℕ
bank_pays out n (refund tx r) id =
    if accepted (out.bank.refund n (out.env.uuid_string tx.id) r.amount) && tx.id == id
    then pos_part r.amount
    else 0
bank_pays out n _ id = 0
