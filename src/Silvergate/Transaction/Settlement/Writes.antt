-- ===== src/Silvergate/Transaction/Settlement/Writes.antt =====
-- What settleAsync and refundAsync of services/silvergate/internal/transaction/service.go write, by
-- the answer of the bank.
use distributed_payment_mana.Prelude.{false, Bool}
use distributed_payment_mana.Exec.{Result, ok, err}
use distributed_payment_mana.Postgres.{DbError}
use distributed_payment_mana.Silvergate.Errors.{Constraint}
use distributed_payment_mana.Silvergate.Acquirer.{BankResult, Unreachable}
use distributed_payment_mana.Silvergate.Tables.{Store}
use distributed_payment_mana.Silvergate.Transaction.Entity.{Transaction}

-- The bank has answered, and with success.
abbrev pub settled : Result Unreachable BankResult → Bool
settled (ok r) = r.success
settled (err e) = false

-- The tables after a statement, unless a constraint refuses it.
abbrev pub or_refused : Store → Result (DbError Constraint) Store → Store
or_refused s (ok t) = t
or_refused s (err e) = s
