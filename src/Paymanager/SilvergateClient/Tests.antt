-- ===== src/Paymanager/SilvergateClient/Tests.antt =====
-- The client of silvergate on a concrete answer.
use distributed_payment_mana.Prelude.{pos, none, some, all, any, ◌≡◌, refl}
use distributed_payment_mana.Exec.{ok, ◌>>=◌}
use distributed_payment_mana.Postgres.{now, in_transaction}
use distributed_payment_mana.Silvergate.Tables
use distributed_payment_mana.Silvergate.Transaction.Repo
use distributed_payment_mana.Silvergate.Transaction.Service
use distributed_payment_mana.Silvergate.Transaction.Service.{CaptureResponse}
use distributed_payment_mana.Silvergate.Transaction.Entity.{
  capture_pending, mark_capture_pending, status_string,
}
use distributed_payment_mana.Silvergate.Tests.{shop, collect, reserved_funds, collecting}
use distributed_payment_mana.Paymanager.Order.Entity.{capture_failed}
use distributed_payment_mana.Paymanager.Order.Tables.{ProviderCall}
use distributed_payment_mana.Paymanager.SilvergateClient.{Client, capture_payment}
use distributed_payment_mana.Paymanager.SilvergateClient.Answers.{capture_payment_failed}

-- A silvergate that accepts captures.
abbrev accepting : Client
accepting = record {
  base_url = "http://silvergate";
  submit_representment_url = "/representments";
  capture_url = "/api/v1/capture";
  auth_url = "/api/v1/auth";
  void_url = "/api/v1/void";
  post = λ n url body. some (200, "answer");
  encode = λ b. some "{}";
  decode_id = λ s. none;
  decode_capture = λ s. some (record { transaction_id = "tx"; status = "capture_pending" });
  decode_auth = λ s. none;
  decode_refund = λ s. none;
  truncate = λ x. pos x;
}

abbrev call : ProviderCall
call = record { order_id = "tx"; amount = 7; currency = "USD"; idempotency_key = "key" }

abbrev accepted : CaptureResponse
accepted = record { transaction_id = 2; status = capture_pending }

accepted_ok : Service.capture shop collect reserved_funds ≡ (ok accepted, collecting)
unfolding Service.capture ◌>>=◌ in_transaction Service.capture_in_tx Repo.get_by_id now
    mark_capture_pending Repo.update_status all Tables.transaction_checks Tables.clashes any
    Tables.product_exists
accepted_ok = refl

capture_payment_failed_example :
    capture_payment accepting 0 call
    ≡ ok (record { provider_tx_id = "tx"; status = capture_failed })
capture_payment_failed_example =
    capture_payment_failed shop collect reserved_funds collecting accepted accepting 0 call "{}"
      "answer" 200 (record { transaction_id = "tx"; status = "capture_pending" }) accepted_ok refl
      refl refl refl (unfold status_string in refl)
