-- ===== src/Silvergate/Ledger/Changes.antt =====
-- The changes that keep the books in order, one for each kind of statement.
pub mod Refunds
pub mod Releases
use distributed_payment_mana.Prelude.{
  ℕ, ℤ, pos_part, Bool, some, List, [], ◌∷◌, ◌++◌, ◌&&◌, ◌==◌, ◌≡◌, ◌≢◌, refl, arith, ◌+◌, ◌-ℤ◌,
  ◌≤◌, ◌<◌, All, Option-cases, inl, inr, if◌then◌else◌,
}
use native.Mathlib.Decide.{ℕ_discrete}
use distributed_payment_mana.Postgres.{Uuid, Time}
use distributed_payment_mana.Silvergate.Transaction.Entity.{refund_pending, Refund, Transaction}
use distributed_payment_mana.Silvergate.Tables.{TransactionRow, RefundRow, update_where, find}
use distributed_payment_mana.Silvergate.Tables.Rows.{
  IsKeyed, find-update_where, find-All, All-update_found, All-append, All-append_inv, All-map,
}
use distributed_payment_mana.Silvergate.Runtime.{Task, refund}
use distributed_payment_mana.Silvergate.Transaction.Repo.{has_id}
use distributed_payment_mana.Silvergate.Transaction.Repo.Outcome.{
  set_refund_status, set_refund, refund_row, released,
}
use distributed_payment_mana.Silvergate.Ledger.{
  is_done, paid_back, claim, task_claim, in_flight, owed_task, owed, reserved, owner, TaskOk, Owned,
  RowOk, Books,
}
use distributed_payment_mana.Silvergate.Ledger.Sums.{
  reserved-append, paid_back-append, in_flight-append, owed-append, reserved-update_ne,
  reserved-update_same, reserved-find, reserved-find-none, paid_back-update, owner-append,
  owner-append_new, owner-update,
}

-- Refunds that are added or marked keep the owner of each refund that a goroutine works on.
pub TaskOk-of_owner :
    (rs rs' : List RefundRow)
    → ((i : Uuid) (o : Uuid × ℤ) → owner i rs ≡ some o → owner i rs' ≡ some o)
    → (t : Task) → TaskOk rs t
    → TaskOk rs' t
TaskOk-of_owner rs rs' keep (Task.settle tx a) h = tt
TaskOk-of_owner rs rs' keep (Task.settle_write tx next) h = h
TaskOk-of_owner rs rs' keep (Task.refund tx r) h = (keep r.id (tx.id, r.amount) h.0, h.1)
TaskOk-of_owner rs rs' keep (Task.refund_write tx r) h = (keep r.id (tx.id, r.amount) h.0, h.1)
TaskOk-of_owner rs rs' keep (Task.release n tx r) h = (keep r.id (tx.id, r.amount) h.0, h.1)
TaskOk-of_owner rs rs' keep (Task.refund_notify tx r) h = tt
TaskOk-of_owner rs rs' keep (Task.void_notify tx) h = tt

pub one-in_flight : (id : Uuid) (t : Task) → in_flight id (t ∷ []) ≡ task_claim id t
unfolding in_flight
one-in_flight id t = omega arith

pub one-owed : (id : Uuid) (t : Task) → owed id (t ∷ []) ≡ owed_task id t
unfolding owed
one-owed id t = omega arith

pub owed_task-le : (id : Uuid) (t : Task) → owed_task id t ≤ task_claim id t
owed_task-le id t = ground arith

pub owed-le : (id : Uuid) (ts : List Task) → owed id ts ≤ in_flight id ts
unfolding owed in_flight
owed-le id [] = omega arith
owed-le id (t ∷ ts) = omega (arith, owed-le id ts, owed_task-le id t)

module _ {paid : Uuid → ℕ} {ts : List TransactionRow} {rs : List RefundRow} {tasks : List Task}
    (b : Books paid ts rs tasks) where
  -- A row with nothing reserved is added.
  pub Books-insert :
      (row : TransactionRow)
      → IsKeyed (λ (r : TransactionRow). r.id) (ts ++ row ∷ [])
      → RowOk row
      → Books paid (ts ++ row ∷ []) rs tasks
  Books-insert row u h = record {
    keyed = u;
    refunds_keyed = b.refunds_keyed;
    rows_ok = All-append RowOk ts (row ∷ []) b.rows_ok (h, tt);
    tasks_ok = b.tasks_ok;
    covered = λ id. omega (arith, b.covered id, reserved-append id ts (row ∷ []));
    backed = λ id. omega (arith, b.backed id, reserved-append id ts (row ∷ []));
  }

  -- Rows change, and nothing that is reserved.
  pub Books-update :
      (p : TransactionRow → Bool) (f : TransactionRow → TransactionRow)
      → ((r : TransactionRow) → (f r).id ≡ r.id)
      → ((r : TransactionRow) → (f r).refunded_amount ≡ r.refunded_amount)
      → IsKeyed (λ (r : TransactionRow). r.id) (update_where p f ts)
      → All RowOk (update_where p f ts)
      → Books paid (update_where p f ts) rs tasks
  Books-update p f keeps same u h = record {
    keyed = u;
    refunds_keyed = b.refunds_keyed;
    rows_ok = h;
    tasks_ok = b.tasks_ok;
    covered = λ id. omega (arith, b.covered id, reserved-update_same id p f keeps same ts);
    backed = λ id. omega (arith, b.backed id, reserved-update_same id p f keeps same ts);
  }

  -- A goroutine starts that pays nothing back.
  pub Books-spawn :
      (t : Task)
      → TaskOk rs t
      → ((id : Uuid) → task_claim id t ≡ 0)
      → Books paid ts rs (tasks ++ t ∷ [])
  Books-spawn t h none' = record {
    keyed = b.keyed;
    refunds_keyed = b.refunds_keyed;
    rows_ok = b.rows_ok;
    tasks_ok = All-append (TaskOk rs) tasks (t ∷ []) b.tasks_ok (h, tt);
    covered = λ id.
        omega
          (arith, b.covered id, in_flight-append id tasks (t ∷ []), one-in_flight id t, none' id);
    backed = λ id. omega (
      arith,
      b.backed id,
      owed-append id tasks (t ∷ []),
      one-owed id t,
      owed_task-le id t,
      none' id,
    );
  }

pub Books-move :
    {paid : Uuid → ℕ} {ts : List TransactionRow} {rs : List RefundRow} (xs : List Task) (t : Task)
    (ys : List Task)
    → Books paid ts rs (xs ++ t ∷ ys)
    → Books paid ts rs ((xs ++ ys) ++ t ∷ [])
unfolding in_flight owed
Books-move {paid} {ts} {rs} xs t ys b =
    let (hx, (ht, hy)) = All-append_inv (TaskOk rs) xs (t ∷ ys) b.tasks_ok in
    record {
      keyed = b.keyed;
      refunds_keyed = b.refunds_keyed;
      rows_ok = b.rows_ok;
      tasks_ok =
          All-append (TaskOk rs) (xs ++ ys) (t ∷ []) (All-append (TaskOk rs) xs ys hx hy) (ht, tt);
      covered = λ id. omega (
        arith,
        b.covered id,
        in_flight-append id xs (t ∷ ys),
        in_flight-append id (xs ++ ys) (t ∷ []),
        in_flight-append id xs ys,
      );
      backed = λ id. omega (
        arith,
        b.backed id,
        owed-append id xs (t ∷ ys),
        owed-append id (xs ++ ys) (t ∷ []),
        owed-append id xs ys,
      );
    }

-- Books that are in order stay so for less that was paid.
pub Books-less :
    {paid : Uuid → ℕ} (later : Uuid → ℕ) {ts : List TransactionRow} {rs : List RefundRow}
    {tasks : List Task}
    → Books paid ts rs tasks
    → ((id : Uuid) → later id ≤ paid id)
    → Books later ts rs tasks
Books-less later b less = record {
  keyed = b.keyed;
  refunds_keyed = b.refunds_keyed;
  rows_ok = b.rows_ok;
  tasks_ok = b.tasks_ok;
  covered = b.covered;
  backed = λ id. omega (arith, b.backed id, less id);
}

-- A goroutine goes on: what it claims does not grow, and what the bank pays is owed no longer.
pub Books-continue :
    {paid : Uuid → ℕ} (later : Uuid → ℕ) {ts : List TransactionRow} {rs : List RefundRow}
    (tasks : List Task) (t : Task) (new : List Task)
    → Books paid ts rs (tasks ++ t ∷ [])
    → All (TaskOk rs) new
    → ((id : Uuid) → in_flight id new ≤ task_claim id t)
    → ((id : Uuid) → later id + owed id new ≤ paid id + owed_task id t)
    → Books later ts rs (tasks ++ new)
Books-continue {paid} later {ts} {rs} tasks t new b h less less' = record {
  keyed = b.keyed;
  refunds_keyed = b.refunds_keyed;
  rows_ok = b.rows_ok;
  tasks_ok =
      All-append (TaskOk rs) tasks new (All-append_inv (TaskOk rs) tasks (t ∷ []) b.tasks_ok).0 h;
  covered = λ id. omega (
    arith,
    b.covered id,
    less id,
    in_flight-append id tasks (t ∷ []),
    in_flight-append id tasks new,
    one-in_flight id t,
  );
  backed = λ id. omega (
    arith,
    b.backed id,
    less' id,
    owed-append id tasks (t ∷ []),
    owed-append id tasks new,
    one-owed id t,
  );
}
