-- ===== src/Paymanager/Payment/Service.antt =====
-- services/paymanager/internal/payment/service.go. Logging is left out; goroutines are added to the
-- tasks of the manager and run whole. The provider is a parameter.
use distributed_payment_mana.Prelude.{
  ◌<+>◌, ℕ, ℤ, pos, pos_part, String, Bool, Option, none, some, [], ◌∷◌, ◌++◌, ◌+◌, not, ◌&&◌,
  str_eq, leb_ℤ, ltb_ℤ, ◌+i64◌, ◌-i64◌, if◌then◌else◌,
}
use distributed_payment_mana.Exec.{
  Result, ok, err, attempt, mapped, lift, pure, raise, modify, ◌>>=◌, ◌>>◌,
}
use distributed_payment_mana.Postgres.{
  Uuid, Time, Env, repeatable_read, ticked, now, new_uuid, in_transaction,
}
use distributed_payment_mana.Paymanager.Payment.Entity.{
  Status, authorized, capture_pending, captured, capture_failed, voided, partially_refunded,
  refunded, status_eq, can_transition_to, Payment, new_authorized, new_declined, CaptureWebhook,
  CreatePaymentRequest, Failure, invalid_status, invalid_capture_delay, refund_exceeds_amount,
  unknown_webhook_status, provider, database,
}
use distributed_payment_mana.Paymanager.Payment.Repo.{
  Task, capture_in_background, capture_with_delay, Call, insert_payment, get_payment_by_id,
  get_payment_by_provider_tx_id, update_payment_status, update_payment_refund, create_event,
}

-- The types of internal/gateway/types.go that payments use.
pub record AuthRequest : Type 0 where
  pub merchant_id : String
  pub order_id : String
  pub amount : ℤ
  pub currency : String
  pub card_token : String

pub record AuthResult : Type 0 where
  pub transaction_id : String
  -- Status == AuthStatusAuthorized
  pub is_authorized : Bool
  pub decline_reason : String

pub record RefundCall : Type 0 where
  pub transaction_id : String
  pub amount : ℤ
  pub idempotency_key : String

-- An error of the provider carries nothing that the program reads.
pub data Refusal : Type 0 where
  refusal : Refusal

-- The interface Provider; the first argument is the number of the call. Of a capture, a void and a
-- refund only the error is looked at. CapturePayment gets the amount, which Go turns into a float64.
pub record Provider : Type 0 where
  pub authorize_payment : ℕ → AuthRequest → Result Refusal AuthResult
  pub capture_payment : ℕ → String → ℤ → String → Result Refusal (Unit {0})
  pub void_payment : ℕ → String → Result Refusal (Unit {0})
  pub refund_payment : ℕ → RefundCall → Result Refusal (Unit {0})

-- What the manager is connected to, with two functions of Go's library: time.ParseDuration and the
-- decimal text of a number.
pub record Outside : Type 0 where
  pub env : Env
  pub provider : Provider
  pub merchant_id : String
  pub parse_duration : String → Option ℤ
  pub decimal : ℤ → String

abbrev refused : {A : Type 0} → Result Refusal A → Result Failure A
refused r = mapped (λ e. provider) r

-- One call of the provider.
unfoldable pub ask : {A : Type 0} → (ℕ → Result Refusal A) → Call A
ask call w = (refused (call w.tick), ticked w)

abbrev go : Task → Call (Unit {0})
go t = modify (λ w. record w { tasks = w.tasks ++ t ∷ [] })

-- The status after a refund of so much in all.
unfoldable pub status_after : ℤ → Payment → Status
status_after total p = if leb_ℤ p.amount total then refunded else partially_refunded

-- The switch on webhook.Status; `some (some s)` moves the payment to `s`, `some none` is the refund
-- that failed, which is only logged.
unfoldable pub webhook_status : String → Option (Option Status)
webhook_status s =
    if str_eq s "captured"
    then some (some captured)
    else if str_eq s "capture_failed"
    then some (some capture_failed)
    else if str_eq s "voided"
    then some (some voided)
    else if str_eq s "refund_failed"
    then some none
    else none

module _ (out : Outside) where
  abbrev parsed : Option ℤ → Result Failure ℤ
  parsed none = err invalid_capture_delay
  parsed (some d) = ok d

  abbrev delay_of : String → Result Failure ℤ
  delay_of s = if str_eq s "" then ok (pos 0) else parsed (out.parse_duration s)

  abbrev payment_for : Uuid → Time → CreatePaymentRequest → AuthResult → Payment
  payment_for id at req result =
      if result.is_authorized
      then new_authorized id at req.amount req.currency req.card_token result.transaction_id
          out.merchant_id
      else new_declined id at req.amount req.currency req.card_token result.transaction_id
          out.merchant_id result.decline_reason

  -- p.CaptureAt
  unfoldable pub with_capture_at : Payment → ℤ → Call Payment
  with_capture_at p delay =
      if status_eq p.status authorized && ltb_ℤ (pos 0) delay
      then (do at ← now out.env; pure (record p { capture_at = some (at + pos_part delay) }))
      else pure p

  abbrev capture_if_marked : Payment → Result Failure (Unit {0}) → Call (Unit {0})
  capture_if_marked p (err e) = pure tt
  capture_if_marked p (ok _) = go (capture_in_background p.id p.provider_tx_id p.amount)

  -- What CreatePayment does once the payment is saved.
  unfoldable pub start_capture : Payment → ℤ → Call Payment
  start_capture p delay =
      if not (status_eq p.status authorized)
      then pure p
      else if leb_ℤ delay (pos 0) && leb_ℤ (pos 0) delay
      then (do
        at ← now out.env
        marked ← attempt (update_payment_status out.env p.id capture_pending "")
        capture_if_marked p marked
        pure (record p { status = capture_pending; updated_at = at }))
      else (do go (capture_with_delay p.id p.provider_tx_id p.amount); pure p)

  unfoldable pub create_payment : CreatePaymentRequest → Call Payment
  create_payment req = do
    delay ← lift (delay_of req.capture_delay)
    order ← new_uuid out.env
    result ← ask (λ n. out.provider.authorize_payment n (record {
      merchant_id = out.merchant_id;
      order_id = out.env.uuid_string order;
      amount = req.amount;
      currency = req.currency;
      card_token = req.card_token;
    }))
    at ← now out.env
    id ← new_uuid out.env
    p ← with_capture_at (payment_for id at req result) delay
    in_transaction out.env database repeatable_read (insert_payment out.env p)
    start_capture p delay

  unfoldable pub void_payment : Uuid → Call Payment
  void_payment id = do
    p ← get_payment_by_id out.env id
    lift (if can_transition_to p.status voided then ok tt else err invalid_status)
    ask (λ n. out.provider.void_payment n p.provider_tx_id)
    update_payment_status out.env p.id voided ""
    at ← now out.env
    pure (record p { status = voided; updated_at = at })

  -- The guards of RefundPayment.
  unfoldable pub refundable : ℤ → Payment → Result Failure (Unit {0})
  refundable amount p =
      if not (status_eq p.status captured) && not (status_eq p.status partially_refunded)
      then err invalid_status
      else if ltb_ℤ (p.amount -i64 p.refunded_amount) amount
      then err refund_exceeds_amount
      else ok tt

  unfoldable pub refund_payment : Uuid → ℤ → Call Payment
  refund_payment id amount = do
    p ← get_payment_by_id out.env id
    lift (refundable amount p)
    ask (λ n. out.provider.refund_payment n (record {
      transaction_id = p.provider_tx_id;
      amount = amount;
      idempotency_key = "refund_" <+> out.env.uuid_string id <+> "_" <+> out.decimal amount;
    }))
    pure p

  -- "transaction.refunded"
  unfoldable pub process_refunded : CaptureWebhook → Payment → Call (Unit {0})
  process_refunded hook p = do
    let total = p.refunded_amount +i64 hook.amount
    update_payment_refund out.env p.id (status_after total p) total
    at ← now out.env
    create_event out.env "payment" p.id hook.event
        ("webhook_" <+> hook.transaction_id <+> "_" <+> hook.event <+> "_" <+> hook.refund_id) at

  unfoldable pub move_payment : CaptureWebhook → Payment → Status → Call (Unit {0})
  move_payment hook p next = if not (can_transition_to p.status next) then pure tt else (do
    update_payment_status out.env p.id next ""
    at ← now out.env
    create_event out.env "payment" p.id hook.event
        ("webhook_" <+> hook.transaction_id <+> "_" <+> hook.event) at)

  abbrev process_status : CaptureWebhook → Payment → Option (Option Status) → Call (Unit {0})
  process_status hook p none = raise unknown_webhook_status
  process_status hook p (some none) = pure tt
  process_status hook p (some (some next)) = move_payment hook p next

  abbrev process_event : CaptureWebhook → Payment → Call (Unit {0})
  process_event hook p =
      if str_eq hook.event "transaction.refunded"
      then process_refunded hook p
      else process_status hook p (webhook_status hook.status)

  unfoldable pub process_in_tx : CaptureWebhook → Call (Unit {0})
  process_in_tx hook = do
    p ← get_payment_by_provider_tx_id out.env hook.transaction_id
    process_event hook p

  unfoldable pub process_capture_webhook : CaptureWebhook → Call (Unit {0})
  process_capture_webhook hook =
      in_transaction out.env database repeatable_read (process_in_tx hook)

  abbrev ignored : {A : Type 0} → Call A → Call (Unit {0})
  ignored m = attempt m >> pure tt

  -- captureInBackground: an error is only logged.
  unfoldable pub run_capture : Uuid → String → ℤ → Call (Unit {0})
  run_capture id tx amount =
      ignored (
        ask (λ n. out.provider.capture_payment n tx amount ("capture_" <+> out.env.uuid_string id)))

  -- captureWithDelay after its sleep
  unfoldable pub run_delayed : Uuid → String → ℤ → Call (Unit {0})
  run_delayed id tx amount = ignored (do
    p ← get_payment_by_id out.env id
    lift (if status_eq p.status authorized then ok tt else err invalid_status)
    update_payment_status out.env p.id capture_pending ""
    run_capture id tx amount)

  unfoldable pub run_task : Task → Call (Unit {0})
  run_task (capture_in_background id tx amount) = run_capture id tx amount
  run_task (capture_with_delay id tx amount) = run_delayed id tx amount
