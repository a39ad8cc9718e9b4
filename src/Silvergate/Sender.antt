-- ===== src/Silvergate/Sender.antt =====
-- services/silvergate/internal/webhooksender/sender.go: webhooks to the merchant's callback URL.
use distributed_payment_mana.Prelude.{ℕ, String, [], ◌∷◌, ◌++◌, ◌/◌, ◌==◌, if◌then◌else◌}
use Prim.Native.String
use distributed_payment_mana.Exec.{Result, ok, err, ◌>>=◌}
use distributed_payment_mana.Postgres.{ticked, now}
use distributed_payment_mana.Silvergate.Errors.{Error, webhook}
use distributed_payment_mana.Silvergate.Transaction.Entity.{
  Status, captured, capture_failed, voided, status_string, Transaction, Refund, RefundStatus,
  refund_failed, refund_status_string,
}
use distributed_payment_mana.Silvergate.Runtime.{Event, Call, Outside}

-- The switch of SendCaptureResult.
unfoldable pub capture_event_name : Status → String
unfolding status_string
capture_event_name captured = "transaction.captured"
capture_event_name capture_failed = "transaction.capture_failed"
capture_event_name voided = "transaction.voided"
capture_event_name s = String.◌++◌ "transaction." (status_string s)

unfoldable pub refund_event_name : RefundStatus → String
refund_event_name refund_failed = "transaction.refund_failed"
refund_event_name _ = "transaction.refunded"

-- resp.StatusCode/100 != 2
abbrev accepted : Result Error ℕ → Result Error (Unit {0})
accepted (err e) = err webhook
accepted (ok code) = if code / 100 == 2 then ok tt else err webhook

module _ (out : Outside) where
  -- sendEvent: the request is on its way whatever the answer is.
  unfoldable pub send_event : Event → Call (Unit {0})
  send_event evt w =
      (accepted (out.post w.tick evt), record (ticked w) { sent = w.sent ++ evt ∷ [] })

  unfoldable pub send_capture_result : Transaction → Call (Unit {0})
  unfolding send_event capture_event_name status_string now ◌>>=◌
  send_capture_result tx = do
    at ← now out.env
    send_event (record {
      event = capture_event_name tx.status;
      transaction_id = out.env.uuid_string tx.id;
      refund_id = "";
      order_id = tx.order_ref;
      merchant_id = tx.merchant_id;
      status = status_string tx.status;
      amount = tx.amount;
      currency = tx.currency;
      timestamp = out.env.format_time at;
    })

  unfoldable pub send_refund_result : Transaction → Refund → Call (Unit {0})
  unfolding send_event refund_event_name refund_status_string now ◌>>=◌
  send_refund_result tx r = do
    at ← now out.env
    send_event (record {
      event = refund_event_name r.status;
      transaction_id = out.env.uuid_string tx.id;
      refund_id = out.env.uuid_string r.id;
      order_id = tx.order_ref;
      merchant_id = tx.merchant_id;
      status = refund_status_string r.status;
      amount = r.amount;
      currency = tx.currency;
      timestamp = out.env.format_time at;
    })
