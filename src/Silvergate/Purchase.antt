-- ===== src/Silvergate/Purchase.antt =====
-- services/silvergate/internal/purchase/service.go: the purchase of a product. Logging is left out.
pub mod Replay
use distributed_payment_mana.Prelude.{
  ℕ, ℤ, String, Bool, true, false, Option, none, some, ◌==◌, ◌||◌, ◌&&◌, not, str_eq, if◌then◌else◌,
}
use Prim.Native.String
use distributed_payment_mana.Exec.{
  Exec, Result, ok, err, mapped, attempt, lift, pure, raise, ◌>>=◌, ◌>>◌,
}
use distributed_payment_mana.Postgres.{Uuid, DbError, read_committed, in_transaction}
use distributed_payment_mana.Silvergate.Errors.{
  Error, TransactionError, transaction, purchase, database, product_archived, idempotency_conflict,
  capture_partially_applied, purchase_idempotency_conflict,
}
use distributed_payment_mana.Silvergate.Transaction.Entity.{
  Status, authorized, capture_pending, status_eq, Transaction,
}
use distributed_payment_mana.Silvergate.Transaction.Repo.{get_by_purchase_idempotency_key}
use distributed_payment_mana.Silvergate.Transaction.Service.{
  AuthRequest, CaptureRequest, CaptureResponse, authorize_in_tx, capture,
}
use distributed_payment_mana.Silvergate.Product.Entity.{Product, is_archived}
use distributed_payment_mana.Silvergate.Product.Service.{get, mark_purchased_in_tx}
use distributed_payment_mana.Silvergate.Runtime.{Gateway, Call, Outside}

pub record Request : Type 0 where
  pub merchant_id : String
  pub order_id : String
  pub product_id : Uuid
  pub card_token : String
  pub idempotency_key : String

pub record Response : Type 0 where
  pub transaction_id : Uuid
  pub product_id : Uuid
  pub order_id : String
  pub status : Status
  pub amount : ℤ
  pub currency : String
  pub decline_reason : String

abbrev pub is_product : Option Uuid → Uuid → Bool
is_product none id = false
is_product (some p) id = p == id

unfoldable pub same_request : Transaction → Request → Bool
same_request tx req =
    str_eq tx.order_ref req.order_id
    && str_eq tx.card_token req.card_token
    && is_product tx.product_id req.product_id

unfoldable pub response_from_tx : Transaction → Uuid → Response
response_from_tx tx product_id = record {
  transaction_id = tx.id;
  product_id = product_id;
  order_id = tx.order_ref;
  status = if status_eq tx.status authorized then capture_pending else tx.status;
  amount = tx.amount;
  currency = tx.currency;
  decline_reason = tx.decline_reason;
}

abbrev product_or : Option Uuid → Uuid → Uuid
product_or none id = id
product_or (some p) id = p

-- The answer to a replay of a request, or the conflict.
unfoldable pub replayed : Transaction → Request → Result Error Response
unfolding same_request response_from_tx
replayed existing req =
    if same_request existing req
    then ok (response_from_tx existing (product_or existing.product_id req.product_id))
    else err (purchase idempotency_conflict)

abbrev is_not_found : Error → Bool
is_not_found (transaction TransactionError.not_found) = true
is_not_found _ = false

abbrev pub is_race : Error → Bool
is_race (transaction purchase_idempotency_conflict) = true
is_race _ = false

abbrev some_answer : Result Error Response → Result Error (Option Response)
some_answer (ok r) = ok (some r)
some_answer (err e) = err e

abbrev refuse_archived : Product → Result Error (Unit {0})
refuse_archived p = if is_archived p then err (purchase product_archived) else ok tt

abbrev checked : Request → Result Error Transaction → Result Error (Option Response)
checked req (err e) = if is_not_found e then ok none else err e
checked req (ok existing) = some_answer (replayed existing req)

module _ (out : Outside) where
  -- checkIdempotency: `some` is the answer of an earlier request with the same key.
  unfoldable pub check_idempotency : Request → Call (Option Response)
  check_idempotency req = do
    existing ← attempt (get_by_purchase_idempotency_key out.env req.merchant_id req.idempotency_key)
    lift (checked req existing)

  unfoldable pub resolve_race : Request → Call Response
  resolve_race req = do
    existing ← get_by_purchase_idempotency_key out.env req.merchant_id req.idempotency_key
    lift (replayed existing req)

  unfoldable pub mark_if : Bool → Request → Call (Unit {0})
  mark_if true req = mark_purchased_in_tx out.env req.merchant_id req.product_id
  mark_if false req = pure tt

  -- The transaction of Purchase: authorize, insert, mark the product.
  unfoldable pub purchase_in_tx : Request → Product → Call Transaction
  purchase_in_tx req p = do
    tx ← authorize_in_tx out (record {
      merchant_id = req.merchant_id;
      order_id = req.order_id;
      amount = p.price;
      currency = p.currency;
      card_token = req.card_token;
      purchase_idempotency_key = req.idempotency_key;
      product_id = some req.product_id;
    })
    mark_if (status_eq tx.status authorized) req
    pure tx

  abbrev after_capture :
      Request → Transaction → Result Error CaptureResponse → Result Error Response
  after_capture req tx (err e) = err (purchase capture_partially_applied)
  after_capture req tx (ok _) = ok (response_from_tx tx req.product_id)

  -- What follows the transaction: the capture of an approved payment. The answer that comes with
  -- ErrCapturePartiallyApplied is left out.
  unfoldable pub finish_purchase : Request → Transaction → Call Response
  finish_purchase req tx =
      if status_eq tx.status authorized
      then (do
        captured ← attempt (
            capture out (record {
              transaction_id = tx.id;
              amount = tx.amount;
              idempotency_key = String.◌++◌ (out.env.uuid_string tx.id) "-cap";
            }))
        lift (after_capture req tx captured))
      else pure (response_from_tx tx req.product_id)

  unfoldable pub continued : Request → Result Error Transaction → Call Response
  continued req (err e) = if is_race e then resolve_race req else raise e
  continued req (ok tx) = finish_purchase req tx

  -- A purchase for which no earlier request has used the key.
  unfoldable pub fresh_purchase : Request → Call Response
  fresh_purchase req = do
    p ← get out.env req.merchant_id req.product_id
    lift (refuse_archived p)
    tx ←
        attempt
          (in_transaction out.env (database DbError.other) read_committed (purchase_in_tx req p))
    continued req tx

  unfoldable pub answered : Request → Option Response → Call Response
  answered req (some cached) = pure cached
  answered req none = fresh_purchase req

  unfoldable pub purchase_product : Request → Call Response
  purchase_product req = do cached ← check_idempotency req; answered req cached
