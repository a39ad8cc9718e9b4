-- ===== src/Paymanager/Tests.antt =====
-- The payment manager on concrete inputs.
use distributed_payment_mana.Prelude.{inl, any, ℕ, pos, true, false, none, some, [], ◌∷◌, ◌≡◌, refl}
use distributed_payment_mana.Exec.{ok, err}
use distributed_payment_mana.Postgres.{Env}
use distributed_payment_mana.Paymanager.Payment.Entity.{
  captured, partially_refunded, Payment, CaptureWebhook, Failure,
}
use distributed_payment_mana.Paymanager.Payment.Tables.{PaymentRow}
use distributed_payment_mana.Paymanager.Payment.Repo.{Manager}
use distributed_payment_mana.Silvergate.Tables.{find}
use distributed_payment_mana.Paymanager.Payment.Service
use distributed_payment_mana.Paymanager.Payment.Service.{Outside, Provider, process_capture_webhook}
use distributed_payment_mana.Paymanager.Payment.Duplicates.{process_capture_webhook_again}
use distributed_payment_mana.Paymanager.Payment.Webhooks.{process_capture_webhook_unknown}

abbrev calm : Env
calm = record {
  now = λ n. n;
  uuid = λ n. n;
  fault = λ n. false;
  uuid_string = λ n. "uuid";
  format_time = λ n. "time";
}

abbrev agreeing : Provider
agreeing = record {
  authorize_payment =
      λ n req. ok (record { transaction_id = "tx"; is_authorized = true; decline_reason = "" });
  capture_payment = λ n tx amount key. ok tt;
  void_payment = λ n tx. ok tt;
  refund_payment = λ n req. ok tt;
}

abbrev office : Outside
office = record {
  env = calm;
  provider = agreeing;
  merchant_id = "merchant";
  parse_duration = λ s. some (pos 0);
  decimal = λ n. "300";
}

abbrev row : PaymentRow
row = record {
  id = 7;
  amount = pos 1000;
  currency = "USD";
  card_token = "tok";
  status = captured;
  decline_reason = none;
  provider_tx_id = some "tx";
  merchant_id = "merchant";
  refunded_amount = pos 0;
  capture_at = none;
  created_at = 1;
  updated_at = 1;
}

abbrev payment : Payment
payment = record {
  id = 7;
  amount = pos 1000;
  currency = "USD";
  card_token = "tok";
  status = captured;
  decline_reason = "";
  provider_tx_id = "tx";
  merchant_id = "merchant";
  refunded_amount = pos 0;
  capture_at = none;
  created_at = 1;
  updated_at = 1;
}

abbrev at_tick : ℕ → Manager
at_tick n = record {
  tick = n;
  store = record { payments = row ∷ []; events = [] };
  sent = [];
  tasks = [];
}

-- What the gateway posts when it has settled a capture.
abbrev pending : CaptureWebhook
pending = record {
  event = "transaction.capture_pending";
  transaction_id = "tx";
  refund_id = "";
  order_id = "order";
  merchant_id = "merchant";
  status = "capture_pending";
  amount = pos 1000;
  currency = "USD";
  timestamp = "time";
}

process_capture_webhook_unknown_example :
    (e : Failure) × ((process_capture_webhook office pending (at_tick 0)).0 ≡ err e)
    × ((process_capture_webhook office pending (at_tick 0)).1.store ≡ (at_tick 0).store)
process_capture_webhook_unknown_example =
    process_capture_webhook_unknown office pending (at_tick 0) refl (inl refl)

abbrev returned : CaptureWebhook
returned = record pending {
  event = "transaction.refunded";
  refund_id = "refund";
  status = "refunded";
  amount = pos 300;
}

-- After the first delivery.
abbrev returned_once : Manager
returned_once = record (at_tick 10) {
  store = record {
    payments = record row { status = partially_refunded; refunded_amount = pos 300 } ∷ [];
    events =
        record {
          id = 9;
          aggregate_type = "payment";
          aggregate_id = 7;
          event_type = "transaction.refunded";
          idempotency_key = "webhook_tx_transaction.refunded_refund";
          created_at = 8;
        }
        ∷ [];
  };
}

process_capture_webhook_again_example :
    (e : Failure) × ((process_capture_webhook office returned returned_once).0 ≡ err e)
    × ((process_capture_webhook office returned returned_once).1.store ≡ returned_once.store)
process_capture_webhook_again_example =
    process_capture_webhook_again office returned returned_once
      (record row { status = partially_refunded; refunded_amount = pos 300 }) refl
      (unfold find in refl) (unfold any in refl)
