-- ===== src/Silvergate/Acquirer.antt =====
-- services/silvergate/internal/acquirer: the bank behind an interface, and its mock.
use distributed_payment_mana.Prelude.{ℕ, ℤ, String, Bool}
use distributed_payment_mana.Exec.{Result}

pub record AuthResult : Type 0 where
  pub approved : Bool
  pub decline_reason : String

-- SettleResult, VoidResult and RefundResult have the same two fields.
pub record BankResult : Type 0 where
  pub success : Bool
  pub reason : String

-- An error of the bank's network carries nothing that the program reads.
pub data Unreachable : Type 0 where
  unreachable : Unreachable

-- The interface Acquirer. The first argument is the number of the call: a bank may answer the same
-- request in another way the next time. Transactions are named by the text of their identifier.
pub record Acquirer : Type 0 where
  pub authorize : ℕ → ℤ → String → String → Result Unreachable AuthResult
  pub settle : ℕ → String → ℤ → Result Unreachable BankResult
  pub void : ℕ → String → Result Unreachable BankResult
  pub refund : ℕ → String → ℤ → Result Unreachable BankResult
