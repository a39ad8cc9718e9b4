-- ===== src/Silvergate/Runtime.antt =====
-- The running gateway: its state, what it calls outside, and the messages it sends.
-- The tables are those of Tables; the goroutines are the `go` statements of transaction/service.go,
-- and the points inside them where another request may run.
use distributed_payment_mana.Prelude.{ℕ, ℤ, String}
use distributed_payment_mana.Exec.{Result, Exec}
use distributed_payment_mana.Postgres.{World, Env, DbError}
use distributed_payment_mana.Silvergate.Errors.{Constraint, Error}
use distributed_payment_mana.Silvergate.Acquirer.{Acquirer}
use distributed_payment_mana.Silvergate.Transaction.Entity.{Transaction, Refund, Status}
use distributed_payment_mana.Silvergate.Tables.{Store}

-- webhooksender.Event
pub record Event : Type 0 where
  pub event : String
  pub transaction_id : String
  pub refund_id : String
  pub order_id : String
  pub merchant_id : String
  pub status : String
  pub amount : ℤ
  pub currency : String
  pub timestamp : String

-- A goroutine, by what it has still to do.
pub data Task : Type 0 where
  -- go s.settleAsync(tx, amount)
  settle : Transaction → ℤ → Task
  -- settleAsync before CompareAndUpdateStatus, with the webhook that follows it
  settle_write : Transaction → Status → Task
  -- go s.refundAsync(tx, refund)
  refund : Transaction → Refund → Task
  -- refundAsync before UpdateRefundStatus
  refund_write : Transaction → Refund → Task
  -- refundAsync with so many attempts of ReleaseRefundAmount left
  release : ℕ → Transaction → Refund → Task
  -- refundAsync before SendRefundResult
  refund_notify : Transaction → Refund → Task
  -- the goroutine of Void
  void_notify : Transaction → Task

abbrev pub Gateway : Type 0
Gateway = World Store Event Task

abbrev pub Call : Type 0 → Type 0
Call A = Exec Gateway Error A

abbrev pub Sql : Type 0 → Type 0
Sql A = Exec Gateway (DbError Constraint) A

-- What the gateway is connected to. `post` is the answer to a webhook: a status code, or no answer.
pub record Outside : Type 0 where
  pub env : Env
  pub bank : Acquirer
  pub post : ℕ → Event → Result Error ℕ
