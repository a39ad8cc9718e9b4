-- ===== src/Ingest/ApiClient.antt =====
-- services/ingest/apiclient: client.go, errors.go and retry.go. The wait between two attempts has no
-- effect but time, and is left out; the correlation header too.
pub mod Retry
use distributed_payment_mana.Prelude.{
  ℕ, zero, suc, ◌==◌, ◌&&◌, ltb, leb, ℤ, pos_part, String, Bool, true, false, Option, none, some,
  List, [], ◌∷◌, ◌++◌, str_eq, if◌then◌else◌,
}
use distributed_payment_mana.Exec.{Exec, Result, ok, err, lift, ◌>>=◌}
use distributed_payment_mana.Postgres.{Env, World, Uuid, ticked}
use distributed_payment_mana.Ingest.Dto.{
  OrderUpdateRequest, DisputeUpdateRequest, PaymentWebhookRequest, Request, order, dispute, payment,
}

-- Any error of the ingest service.
pub data Failure : Type 0 where
  -- apiclient/errors.go
  not_found conflict invalid_status service_unavailable bad_request : Failure
  -- `unexpected status code …`, and ctx.Err()
  unexpected cancelled : Failure
  -- json.Marshal, json.Unmarshal
  marshal unmarshal : Failure
  -- `unknown webhook type: …`
  unknown_type : Failure
  -- inbox.ErrAlreadyExists, pgx.ErrNoRows, any other error of the database
  already_exists no_rows database : Failure

-- A request to the payment manager, as it was passed to the HTTP client.
pub record Post : Type 0 where
  pub path : String
  pub body : String

-- What the service is connected to, by the number of the call: the database; the status code of the
-- answer to a request, or none; whether the context is done when a retry waits; which rows another
-- worker has locked; encoding/json, and the texts of errors.
pub record Outside : Type 0 where
  pub env : Env
  pub respond : ℕ → Post → Option ℕ
  pub is_done : ℕ → Bool
  pub is_locked : ℕ → Uuid → Bool
  pub encode : Request → Option String
  pub decode_order : String → Option OrderUpdateRequest
  pub decode_dispute : String → Option DisputeUpdateRequest
  pub error_text : Failure → String

pub data Status : Type 0 where
  pending processing processed failed : Status

-- A row of the table `inbox`.
pub record InboxRow : Type 0 where
  pub id : Uuid
  pub idempotency_key : String
  pub webhook_type : String
  pub payload : String
  pub status : Status
  pub received_at : ℕ
  pub processed_at : Option ℕ
  pub error_message : Option String
  pub retry_count : ℕ

abbrev pub Ingest : Type 0
Ingest = World (List InboxRow) Post (Unit {0})

abbrev pub Call : Type 0 → Type 0
Call A = Exec Ingest Failure A

-- handleResponse
unfoldable pub handle_response : ℕ → Result Failure (Unit {0})
handle_response code =
    if leb 200 code && ltb code 300
    then ok tt
    else if code == 400
    then err bad_request
    else if code == 404
    then err not_found
    else if code == 409
    then err conflict
    else if code == 422
    then err invalid_status
    else if leb 500 code
    then err service_unavailable
    else err unexpected

abbrev answered : Option ℕ → Result Failure (Unit {0})
answered none = err service_unavailable
answered (some code) = handle_response code

abbrev pub encoded : Option String → Result Failure String
encoded none = err marshal
encoded (some body) = ok body

abbrev pub is_unavailable : Failure → Bool
is_unavailable service_unavailable = true
is_unavailable e = false

module _ (out : Outside) where
  -- c.httpClient.Do
  unfoldable pub post : Post → Call (Unit {0})
  unfolding handle_response
  post p w = (answered (out.respond w.tick p), record (ticked w) { sent = w.sent ++ p ∷ [] })

  unfoldable pub send_request : String → Request → Call (Unit {0})
  send_request path req = do
    body ← lift (encoded (out.encode req))
    post (record { path = path; body = body })

  -- What DoWithRetry does with the error of an attempt: `left` attempts are left after it, and
  -- `again` are they.
  abbrev pub after_attempt :
      ℕ → Call (Unit {0}) → Result Failure (Unit {0}) × Ingest → Result Failure (Unit {0}) × Ingest
  after_attempt left again (ok _, w) = (ok tt, w)
  after_attempt zero again (err e, w) = (err e, w)
  after_attempt (suc n) again (err e, w) =
      if is_unavailable e
      then (if out.is_done w.tick then (err cancelled, ticked w) else again (ticked w))
      else (err e, w)

  -- DoWithRetry, by the attempts that are left. With none at all, `lastErr` is still nil.
  unfoldable pub attempts : ℕ → Call (Unit {0}) → Call (Unit {0})
  attempts zero fn w = (ok tt, w)
  attempts (suc n) fn w = let again = attempts n fn in after_attempt n again (fn w)

  unfoldable pub do_with_retry : ℤ → Call (Unit {0}) → Call (Unit {0})
  do_with_retry max_attempts fn = attempts (pos_part max_attempts) fn

  unfoldable pub send_order_update : ℤ → OrderUpdateRequest → Call (Unit {0})
  send_order_update max_attempts req =
      do_with_retry max_attempts (send_request "/internal/updates/orders" (order req))

  unfoldable pub send_dispute_update : ℤ → DisputeUpdateRequest → Call (Unit {0})
  send_dispute_update max_attempts req =
      do_with_retry max_attempts (send_request "/internal/updates/disputes" (dispute req))

  unfoldable pub send_payment_webhook : ℤ → PaymentWebhookRequest → Call (Unit {0})
  send_payment_webhook max_attempts req =
      do_with_retry max_attempts (send_request "/internal/updates/payments" (payment req))
