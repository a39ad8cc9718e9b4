-- ===== src/Paymanager/SilvergateClient/Answers.antt =====
-- services/paymanager/internal/silvergateclient/client.go, with the answer of
-- services/silvergate/internal/transaction/service.go: what a capture of silvergate comes to.
use distributed_payment_mana.Prelude.{
  ℕ, ◌/◌, ◌==◌, String, true, false, Option, some, refl, ◌∙◌, str_eq, ◌≡◌, ap, arith,
}
use distributed_payment_mana.Exec.{ok}
use distributed_payment_mana.Paymanager.Order.Entity.{capture_failed}
use distributed_payment_mana.Paymanager.Order.Tables.{ProviderCall}
use distributed_payment_mana.Paymanager.SilvergateClient.{
  Client, CaptureAnswer, capture_body, capture_result, capture_payment,
}
use distributed_payment_mana.Silvergate.Runtime.{Gateway, Outside}
use distributed_payment_mana.Silvergate.Transaction.Entity.{status_string}
use distributed_payment_mana.Silvergate.Transaction.Service.{
  CaptureRequest, CaptureResponse, capture,
}
use distributed_payment_mana.Silvergate.Transaction.Service.Effects.{capture-Captured}

-- The request of a capture of an order, as it is written.
abbrev pub capture_text : Client → ProviderCall → Option String
capture_text c req =
    c.encode (capture_body req.order_id (c.truncate req.amount) req.idempotency_key)

-- Where silvergate has accepted a capture, and its answer comes over the wire as it is, with a status
-- code of 2xx and the text of its status, the client of the payment manager reports the capture as
-- failed, and not as an error.
pub capture_payment_failed :
    (out : Outside) (asked : CaptureRequest) (w v : Gateway) (resp : CaptureResponse) (c : Client)
    (n : ℕ) (req : ProviderCall) (body raw : String) (code : ℕ) (a : CaptureAnswer)
    → capture out asked w ≡ (ok resp, v)
    → capture_text c req ≡ some body
    → c.post n c.capture_url body ≡ some (code, raw)
    → ((code / 100) == 2) ≡ true
    → c.decode_capture raw ≡ some a
    → a.status ≡ status_string resp.status
    → capture_payment c n req
      ≡ ok (record { provider_tx_id = a.transaction_id; status = capture_failed })
unfolding capture_payment capture_result status_string
capture_payment_failed out asked w v resp c n req body raw code a run text answer accepted read
      sent =
    let done = capture-Captured out w {v = v} asked {resp = resp} run in
    let pending : a.status ≡ "capture_pending" =
      sent ∙ ap (λ (r : CaptureResponse). status_string r.status) done.answer in
    let other : str_eq a.status "success" ≡ false = rw pending refl in ground arith
