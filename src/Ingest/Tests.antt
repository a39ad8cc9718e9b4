-- ===== src/Ingest/Tests.antt =====
-- The ingest service on concrete inputs.
use distributed_payment_mana.Ingest.Inbox.{row_checks}
use distributed_payment_mana.Prelude.{
  ℕ, ◌+◌, ◌≤◌, pos, pos_part, false, none, some, List, [], ◌∷◌, any, filter, length, String, ◌==◌,
  ◌≡◌, refl, ◌⊎◌, arith, if◌then◌else◌,
}
use distributed_payment_mana.Exec.{ok, ◌>>=◌}
use distributed_payment_mana.Postgres.{Env, new_uuid, now, statement}
use distributed_payment_mana.Ingest.Dto.{OrderUpdateRequest, PaymentWebhookRequest, order}
use distributed_payment_mana.Ingest.ApiClient.{
  Outside, Ingest, InboxRow, Status, pending, processing, failed, do_with_retry, send_request,
  attempts, post,
}
use distributed_payment_mana.Ingest.ApiClient.Retry.{do_with_retry-length, do_with_retry-ok}
use distributed_payment_mana.Ingest.Inbox.{store, add_row}
use distributed_payment_mana.Ingest.Webhook.{process_payment_webhook, store_request}
use distributed_payment_mana.Ingest.Webhook.Deduplication.{process_payment_webhook_again}
use distributed_payment_mana.Ingest.Worker.{Config, poll}
use distributed_payment_mana.Ingest.Worker.Retries.{polls, polls_give_up}
use distributed_payment_mana.Ingest.Worker.Effects.{rows_of}
use distributed_payment_mana.Ingest.Worker.Rows.{poll_rows}

abbrev calm : Env
calm = record {
  now = λ n. n;
  uuid = λ n. n + 100;
  fault = λ n. false;
  uuid_string = λ n. "uuid";
  format_time = λ n. "time";
}

abbrev update : OrderUpdateRequest
update = record {
  provider_event_id = "ev";
  order_id = "o1";
  user_id = "u1";
  status = "updated";
  updated_at = 2;
  created_at = 1;
  meta = [];
}

-- A payment manager that is down for the first two requests.
abbrev recovering : Outside
recovering = record {
  env = calm;
  respond = λ n p. if n == 0 then none else if n == 2 then some 503 else some 200;
  is_done = λ n. false;
  is_locked = λ t id. false;
  encode = λ r. some "{}";
  decode_order = λ s. some update;
  decode_dispute = λ s. none;
  error_text = λ e. "error";
}

abbrev inbox_of : List InboxRow → Ingest
inbox_of rows = record { tick = 0; store = rows; sent = []; tasks = [] }

abbrev row_of : ℕ → String → Status → InboxRow
row_of id webhook_type status = record {
  id = id;
  idempotency_key = "key";
  webhook_type = webhook_type;
  payload = "{}";
  status = status;
  received_at = 1;
  processed_at = none;
  error_message = none;
  retry_count = 0;
}

abbrev config : Config
config = record { batch_size = pos 10; max_retries = pos 3; max_attempts = pos 3 }

-- The third attempt succeeds.
third_attempt :
    (do_with_retry recovering
      (pos 3)
      (send_request recovering "/internal/updates/orders" (order update))
      (inbox_of [])).0
    ≡ ok tt
unfolding do_with_retry attempts send_request ◌>>=◌ post
third_attempt = refl

do_with_retry-length_example :
    length
      (do_with_retry recovering
        (pos 3)
        (send_request recovering "/internal/updates/orders" (order update))
        (inbox_of [])).1.sent
    ≤ 3
do_with_retry-length_example =
    do_with_retry-length recovering (pos 3) "/internal/updates/orders" (order update) (inbox_of [])

abbrev forwarded : Ingest
forwarded = record {
  tick = 5;
  store = [];
  sent =
      record { path = "/internal/updates/orders"; body = "{}" }
      ∷ record { path = "/internal/updates/orders"; body = "{}" }
      ∷ record { path = "/internal/updates/orders"; body = "{}" }
      ∷ [];
  tasks = [];
}

do_with_retry-ok_example :
    (pos_part (pos 3) ≡ 0)
    ⊎ ((u : Ingest) × (send_request recovering "/internal/updates/orders" (order update) u
          ≡ (ok tt, forwarded)))
unfolding do_with_retry attempts send_request ◌>>=◌ post
do_with_retry-ok_example =
    do_with_retry-ok recovering (pos 3) "/internal/updates/orders" (order update) (inbox_of [])
      forwarded refl

poll_rows_example :
    rows_of 7
      (poll recovering config
        (inbox_of (row_of 7 "order_update" processing ∷ row_of 8 "order_update" pending ∷ []))).1
    ≡ row_of 7 "order_update" processing ∷ []
unfolding any filter
poll_rows_example =
    poll_rows recovering config 7
      (inbox_of (row_of 7 "order_update" processing ∷ row_of 8 "order_update" pending ∷ [])) refl

polls_give_up_example :
    (s : InboxRow) × ((polls recovering config 3
        (inbox_of (row_of 7 "payment_webhook" pending ∷ []))).store
      ≡ s ∷ [])
    × (s.id ≡ 7)
    × (s.status ≡ failed)
    × (s.retry_count ≡ 3)
    × ((polls recovering config 3 (inbox_of (row_of 7 "payment_webhook" pending ∷ []))).sent ≡ [])
unfolding row_checks
polls_give_up_example =
    polls_give_up recovering config (λ t. refl) (λ t id. refl) 9 refl 3 refl (omega arith) 2
      (row_of 7 "payment_webhook" pending) (inbox_of (row_of 7 "payment_webhook" pending ∷ [])) refl
      refl refl refl refl refl

abbrev refund : String → PaymentWebhookRequest
refund id = record {
  event = "transaction.refunded";
  transaction_id = "tx";
  refund_id = id;
  order_id = "o1";
  merchant_id = "m1";
  status = "refunded";
  amount = pos 100;
  currency = "USD";
  timestamp = "time";
}

abbrev first_refund : InboxRow
first_refund = record {
  id = 100;
  idempotency_key = "payment_webhook:tx:transaction.refunded";
  webhook_type = "payment_webhook";
  payload = "{}";
  status = pending;
  received_at = 1;
  processed_at = none;
  error_message = none;
  retry_count = 0;
}

abbrev stored_refund : Ingest
stored_refund = record { tick = 3; store = first_refund ∷ []; sent = []; tasks = [] }

-- The second refund of a transaction is lost.
process_payment_webhook_again_example :
    (process_payment_webhook recovering (refund "r2") stored_refund).1.store ≡ first_refund ∷ []
unfolding any process_payment_webhook store_request ◌>>=◌ store new_uuid now statement add_row
process_payment_webhook_again_example =
    process_payment_webhook_again recovering (refund "r1") (refund "r2") (inbox_of []) stored_refund
      refl refl refl refl
