-- ===== src/Silvergate/Transaction/Service.antt =====
-- services/silvergate/internal/transaction/service.go: the operations of the gateway on its
-- transactions. Logging is left out. The goroutines that an operation starts are added to the
-- tasks of the gateway; what they do is in Settlement.
pub mod Atomic
pub mod Outcome
pub mod Effects
use distributed_payment_mana.Prelude.{
  ℕ, ℤ, String, Bool, true, false, Option, none, some, List, [], ◌∷◌, ◌++◌, not, ◌&&◌, str_eq,
  leb_ℤ, ltb_ℤ, ◌+i64◌, ◌-i64◌, if◌then◌else◌,
}
use distributed_payment_mana.Exec.{
  Exec, Result, ok, err, mapped, map_err, lift, pure, raise, modify, ◌>>=◌, ◌>>◌,
}
use distributed_payment_mana.Postgres.{
  Uuid, Time, Env, DbError, read_committed, repeatable_read, ticked, now, new_uuid, in_transaction,
}
use distributed_payment_mana.Silvergate.Errors.{
  Error, TransactionError, transaction, database, acquirer, void_rejected, not_refundable,
  refund_exceeds_amount,
}
use distributed_payment_mana.Silvergate.Acquirer.{Acquirer, AuthResult, BankResult, Unreachable}
use distributed_payment_mana.Silvergate.Transaction.Entity.{
  Status, authorized, capture_pending, captured, voided, partially_refunded, refunded, status_eq,
  Transaction, mark_product_purchase, new_authorized, new_declined, mark_capture_pending,
  mark_voided, RefundStatus, refund_pending, Refund, new_refund_pending,
}
use distributed_payment_mana.Silvergate.Transaction.Repo.{
  create, get_by_id, get_by_id_for_update, update_status, update_refund, create_refund,
}
use distributed_payment_mana.Silvergate.Runtime.{
  Gateway, Call, Outside, Task, settle, refund, void_notify,
}

pub record AuthRequest : Type 0 where
  pub merchant_id : String
  pub order_id : String
  pub amount : ℤ
  pub currency : String
  pub card_token : String
  -- Set by a purchase; both empty for a bare /auth.
  pub purchase_idempotency_key : String
  pub product_id : Option Uuid

pub record AuthResponse : Type 0 where
  pub transaction_id : Uuid
  pub status : Status
  pub decline_reason : String

pub record CaptureRequest : Type 0 where
  pub transaction_id : Uuid
  pub amount : ℤ
  pub idempotency_key : String

pub record CaptureResponse : Type 0 where
  pub transaction_id : Uuid
  pub status : Status

pub record RefundRequest : Type 0 where
  pub transaction_id : Uuid
  pub amount : ℤ
  pub idempotency_key : String

pub record RefundResponse : Type 0 where
  pub refund_id : Uuid
  pub transaction_id : Uuid
  pub amount : ℤ
  pub status : RefundStatus

pub record VoidResponse : Type 0 where
  pub transaction_id : Uuid
  pub status : Status

abbrev pub bank_error : {A : Type 0} → Result Unreachable A → Result Error A
bank_error r = mapped (λ e. acquirer) r

-- One call of the bank.
unfoldable pub ask : {A : Type 0} → (ℕ → Result Unreachable A) → Call A
ask call w = (bank_error (call w.tick), ticked w)

-- go f(…)
abbrev pub go : Task → Call (Unit {0})
go t = modify (λ w. record w { tasks = w.tasks ++ t ∷ [] })

-- if result.Approved { NewAuthorized } else { NewDeclined }
unfoldable pub authorization : Uuid → Time → AuthRequest → AuthResult → Transaction
unfolding new_authorized new_declined
authorization id at req result =
    if result.approved
    then new_authorized id at req.merchant_id req.order_id req.amount req.currency req.card_token
    else new_declined id at req.merchant_id req.order_id req.amount req.currency req.card_token
        result.decline_reason

abbrev tag_with : String → Option Uuid → Transaction → Transaction
tag_with key none t = t
tag_with key (some product) t = if str_eq key "" then t else mark_product_purchase key product t

-- if req.PurchaseIdempotencyKey != "" && req.ProductID != nil { tx.MarkProductPurchase }
unfoldable pub tag_purchase : AuthRequest → Transaction → Transaction
unfolding mark_product_purchase
tag_purchase req t = tag_with req.purchase_idempotency_key req.product_id t

-- The body of Refund between the read and the writes.
unfoldable pub reserve_refund : Time → ℤ → Transaction → Result TransactionError Transaction
reserve_refund at amount t =
    if not (status_eq t.status captured) && not (status_eq t.status partially_refunded)
    then err not_refundable
    else if ltb_ℤ (t.amount -i64 t.refunded_amount) amount
    then err refund_exceeds_amount
    else let total = t.refunded_amount +i64 amount in
      ok (record t {
        refunded_amount = total;
        status = if leb_ℤ t.amount total then refunded else partially_refunded;
        updated_at = at;
      })

abbrev bank_agrees : BankResult → Result Error (Unit {0})
bank_agrees r = if r.success then ok tt else err void_rejected

module _ (out : Outside) where
  -- AuthorizeInTx
  unfoldable pub authorize_in_tx : AuthRequest → Call Transaction
  authorize_in_tx req = do
    result ← ask (λ n. out.bank.authorize n req.amount req.currency req.card_token)
    at ← now out.env
    id ← new_uuid out.env
    let tx = tag_purchase req (authorization id at req result)
    create out.env tx
    pure tx

  unfoldable pub authorize : AuthRequest → Call AuthResponse
  authorize req = do
    tx ← authorize_in_tx req
    pure (record { transaction_id = tx.id; status = tx.status; decline_reason = tx.decline_reason })

  -- The transaction of Capture.
  unfoldable pub capture_in_tx : CaptureRequest → Call Transaction
  capture_in_tx req = do
    found ← get_by_id out.env req.transaction_id
    at ← now out.env
    tx ← lift (mapped transaction (mark_capture_pending at req.idempotency_key found))
    update_status out.env tx
    pure tx

  unfoldable pub capture : CaptureRequest → Call CaptureResponse
  capture req = do
    tx ← in_transaction out.env (database DbError.other) repeatable_read (capture_in_tx req)
    go (settle tx req.amount)
    pure (record { transaction_id = tx.id; status = capture_pending })

  -- The transaction of Refund.
  unfoldable pub refund_in_tx : RefundRequest → Call (Transaction × Refund)
  refund_in_tx req = do
    found ← get_by_id out.env req.transaction_id
    at ← now out.env
    tx ← lift (mapped transaction (reserve_refund at req.amount found))
    update_refund out.env tx
    created ← now out.env
    id ← new_uuid out.env
    let r = new_refund_pending id created tx.id req.amount req.idempotency_key
    create_refund out.env r
    pure (tx, r)

  unfoldable pub refund_payment : RefundRequest → Call RefundResponse
  refund_payment req = do
    (tx, r) ← in_transaction out.env (database DbError.other) repeatable_read (refund_in_tx req)
    go (refund tx r)
    pure (record {
      refund_id = r.id;
      transaction_id = tx.id;
      amount = req.amount;
      status = refund_pending;
    })

  -- The transaction of Void: the bank is asked while the row is locked.
  unfoldable pub void_in_tx : Uuid → Call Transaction
  void_in_tx id = do
    found ← get_by_id_for_update out.env id
    at ← now out.env
    tx ← lift (mapped transaction (mark_voided at found))
    result ← ask (λ n. out.bank.void n (out.env.uuid_string tx.id))
    lift (bank_agrees result)
    update_status out.env tx
    pure tx

  unfoldable pub void : Uuid → Call VoidResponse
  void id = do
    tx ← in_transaction out.env (database DbError.other) read_committed (void_in_tx id)
    go (void_notify tx)
    pure (record { transaction_id = tx.id; status = voided })
