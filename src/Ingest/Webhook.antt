-- ===== src/Ingest/Webhook.antt =====
-- services/ingest/webhook: the processors of the modes "inbox" and "http"; and what
-- services/ingest/handlers answers. The mode "kafka" only publishes.
pub mod Deduplication
use distributed_payment_mana.Prelude.{ℕ, ℤ, String, Option, none, some, ◌<+>◌}
use distributed_payment_mana.Exec.{Result, ok, err, attempt, lift, ◌>>=◌, ◌>>◌}
use distributed_payment_mana.Ingest.Dto.{
  OrderUpdateRequest, DisputeUpdateRequest, PaymentWebhookRequest, Request, order, dispute, payment,
}
use distributed_payment_mana.Ingest.ApiClient.{
  Outside, Call, Failure, already_exists, invalid_status, not_found, conflict, encoded,
  send_order_update, send_dispute_update, send_payment_webhook,
}
use distributed_payment_mana.Ingest.Inbox.{store}

abbrev pub order_key : OrderUpdateRequest → String
order_key req = "order_update:" <+> req.provider_event_id

abbrev pub dispute_key : DisputeUpdateRequest → String
dispute_key req = "dispute_update:" <+> req.provider_event_id

abbrev pub payment_key : PaymentWebhookRequest → String
payment_key req = "payment_webhook:" <+> req.transaction_id <+> ":" <+> req.event

-- A message that is stored already is no error.
abbrev pub stored_or : Result Failure (Unit {0}) → Result Failure (Unit {0})
stored_or (ok _) = ok tt
stored_or (err already_exists) = ok tt
stored_or (err e) = err e

module _ (out : Outside) where
  -- InboxProcessor
  unfoldable pub store_request : String → String → Request → Call (Unit {0})
  store_request key webhook_type req = do
    payload ← lift (encoded (out.encode req))
    stored ← attempt (store out key webhook_type payload)
    lift (stored_or stored)

  unfoldable pub process_order_update : OrderUpdateRequest → Call (Unit {0})
  process_order_update req = store_request (order_key req) "order_update" (order req)

  unfoldable pub process_dispute_update : DisputeUpdateRequest → Call (Unit {0})
  process_dispute_update req = store_request (dispute_key req) "dispute_update" (dispute req)

  unfoldable pub process_payment_webhook : PaymentWebhookRequest → Call (Unit {0})
  process_payment_webhook req = store_request (payment_key req) "payment_webhook" (payment req)

  -- HTTPSyncProcessor
  unfoldable pub forward : ℤ → Request → Call (Unit {0})
  forward max_attempts (order req) = send_order_update out max_attempts req
  forward max_attempts (dispute req) = send_dispute_update out max_attempts req
  forward max_attempts (payment req) = send_payment_webhook out max_attempts req

-- The status code of OrderHandler and ChargebackHandler.
unfoldable pub webhook_code : Result Failure (Unit {0}) → ℕ
webhook_code (ok _) = 202
webhook_code (err invalid_status) = 422
webhook_code (err not_found) = 404
webhook_code (err conflict) = 409
webhook_code (err e) = 500

-- The status code of PaymentHandler.
unfoldable pub payment_code : Result Failure (Unit {0}) → ℕ
payment_code (ok _) = 202
payment_code (err e) = 500
