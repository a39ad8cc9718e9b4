-- ===== src/Paymanager/Payment/Webhooks.antt =====
-- The webhooks of services/silvergate as services/paymanager/internal/payment/service.go takes them.
use distributed_payment_mana.Prelude.{
  String, false, none, str_eq, ◌≡◌, refl, arith, ◌⊎◌, inl, inr, Bool-cases,
}
use distributed_payment_mana.Exec.{Result, ok, err, ◌>>=◌}
use distributed_payment_mana.Postgres.{ticked, in_transaction}
use distributed_payment_mana.Paymanager.Payment.Entity.{
  CaptureWebhook, Failure, database, unknown_webhook_status, Payment,
}
use distributed_payment_mana.Paymanager.Payment.Repo.{Manager, get_payment_by_provider_tx_id}
use distributed_payment_mana.Paymanager.Payment.Service.{
  Outside, process_capture_webhook, process_in_tx, webhook_status,
}

in_tx_unknown :
    (out : Outside) (hook : CaptureWebhook) (w : Manager)
    → str_eq hook.event "transaction.refunded" ≡ false
    → webhook_status hook.status ≡ none
    → (e : Failure) × ((process_in_tx out hook w).0 ≡ err e)
unfolding process_in_tx ◌>>=◌
in_tx_unknown out hook w h k = at (get_payment_by_provider_tx_id out.env hook.transaction_id w) refl
  where
    at :
        (q : Result Failure Payment × Manager)
        → get_payment_by_provider_tx_id out.env hook.transaction_id w ≡ q
        → (e : Failure) × ((process_in_tx out hook w).0 ≡ err e)
    at (ok p, v) q = (unknown_webhook_status, rw (q, h, k) refl)
    at (err e, v) q = (e, rw q refl)

not_known :
    (s : String)
    → (s ≡ "capture_pending")
      ⊎ ((str_eq s "captured" ≡ false)
          × (str_eq s "capture_failed" ≡ false)
          × (str_eq s "voided" ≡ false)
          × (str_eq s "refund_failed" ≡ false))
    → webhook_status s ≡ none
unfolding webhook_status
not_known s (inl e) = rw e refl
not_known s (inr (a, b, c, d)) = rw (a, b, c, d) refl

-- A webhook that is not a refund and whose status is capture_pending, or any other text than
-- captured, capture_failed, voided and refund_failed, is always an error, whatever the payment is,
-- and leaves payments and events as they were.
pub process_capture_webhook_unknown :
    (out : Outside) (hook : CaptureWebhook) (w : Manager)
    → str_eq hook.event "transaction.refunded" ≡ false
    → (hook.status ≡ "capture_pending")
      ⊎ ((str_eq hook.status "captured" ≡ false)
          × (str_eq hook.status "capture_failed" ≡ false)
          × (str_eq hook.status "voided" ≡ false)
          × (str_eq hook.status "refund_failed" ≡ false))
    → (e : Failure) × ((process_capture_webhook out hook w).0 ≡ err e)
      × ((process_capture_webhook out hook w).1.store ≡ w.store)
unfolding process_capture_webhook in_transaction
process_capture_webhook_unknown out hook w h text =
    let k = not_known hook.status text in
    elim (Bool-cases (out.env.fault w.tick)) [
      | inl down ↦ (database, ground arith, ground arith)
      | inr up ↦
          let (e, q) = in_tx_unknown out hook (ticked w) h k in (e, ground arith, ground arith)
    ]
