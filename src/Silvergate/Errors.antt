-- ===== src/Silvergate/Errors.antt =====
-- The error values of services/silvergate, told apart by `errors.Is`. A message added by
-- `fmt.Errorf("…: %w", err)` wraps an error and leaves it what it is.
use distributed_payment_mana.Postgres.{DbError}

-- The unique indexes of services/silvergate/migrations.
pub data Constraint : Type 0 where
  transactions_pkey idx_transactions_idempotency idx_transactions_purchase_idempotency : Constraint
  refunds_pkey idx_refunds_idempotency : Constraint
  products_pkey idx_products_slug : Constraint

-- transaction/errors.go, and ErrInvalidTransition of transaction/entity.go
pub data TransactionError : Type 0 where
  not_found already_captured duplicate_idempotency purchase_idempotency_conflict : TransactionError
  refund_exceeds_amount not_refundable status_changed invalid_transition : TransactionError

-- product/errors.go
pub data ProductError : Type 0 where
  not_found slug_conflict invalid_slug slug_removal fields_locked archived : ProductError
  empty_update limit_too_large : ProductError

-- purchase/errors.go
pub data PurchaseError : Type 0 where
  product_archived idempotency_conflict capture_partially_applied : PurchaseError

-- Any error that a call of the gateway returns.
pub data Error : Type 0 where
  transaction : TransactionError → Error
  product : ProductError → Error
  purchase : PurchaseError → Error
  -- an error of the database that no repository translates
  database : DbError Constraint → Error
  -- an error of the bank's interface
  acquirer : Error
  -- `void rejected: …`
  void_rejected : Error
  -- `send webhook: …` and `webhook rejected: …`
  webhook : Error
