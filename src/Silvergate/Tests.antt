-- ===== src/Silvergate/Tests.antt =====
-- The operations of services/silvergate on concrete inputs: a bank that agrees to everything, and
-- the lives of a few payments.
mod Payments
mod Products
use distributed_payment_mana.Prelude.{
  ℕ, ℤ, pos, String, Bool, true, false, Option, none, some, List, [], ◌∷◌,
}
use distributed_payment_mana.Exec.{Result, ok, err}
use distributed_payment_mana.Postgres.{Env}
use distributed_payment_mana.Silvergate.Acquirer.{Acquirer}
use distributed_payment_mana.Silvergate.Runtime.{Outside, Gateway, settle, settle_write, refund}
use distributed_payment_mana.Silvergate.Transaction.Service.{
  AuthRequest, CaptureRequest, RefundRequest,
}
use distributed_payment_mana.Silvergate.Transaction.Entity.{
  Status, authorized, capture_pending, captured, partially_refunded, Transaction, Refund,
  refund_pending,
}
use distributed_payment_mana.Silvergate.Tables.{TransactionRow, Store}

-- Identifiers and times are the numbers of the calls.
abbrev pub calm : Env
calm = record {
  now = λ n. n;
  uuid = λ n. n;
  fault = λ n. false;
  uuid_string = λ n. "uuid";
  format_time = λ n. "time";
}

abbrev pub generous : Acquirer
generous = record {
  authorize = λ n amount currency card. ok (record { approved = true; decline_reason = "" });
  settle = λ n id amount. ok (record { success = true; reason = "" });
  void = λ n id. ok (record { success = true; reason = "" });
  refund = λ n id amount. ok (record { success = true; reason = "" });
}

abbrev pub shop : Outside
shop = record { env = calm; bank = generous; post = λ n evt. ok 200 }

abbrev pub order : AuthRequest
order = record {
  merchant_id = "merchant";
  order_id = "order";
  amount = pos 1000;
  currency = "USD";
  card_token = "tok";
  purchase_idempotency_key = "";
  product_id = none;
}

-- The identifier that the order gets.
abbrev pub collect : CaptureRequest
collect = record { transaction_id = 2; amount = pos 1000; idempotency_key = "cap" }

abbrev pub give_back : ℕ → RefundRequest
give_back n = record { transaction_id = 2; amount = pos n; idempotency_key = "ref" }

-- The row of the order, by what its life changes.
abbrev pub order_row : Status → Option String → ℕ → ℕ → TransactionRow
order_row status key taken at = record {
  id = 2;
  merchant_id = "merchant";
  order_ref = "order";
  amount = pos 1000;
  currency = "USD";
  card_token = "tok";
  status = status;
  decline_reason = none;
  idempotency_key = key;
  purchase_idempotency_key = none;
  product_id = none;
  refunded_amount = pos taken;
  created_at = 1;
  updated_at = at;
}

abbrev pub order_tx : Status → String → ℕ → ℕ → Transaction
order_tx status key taken at = record {
  id = 2;
  merchant_id = "merchant";
  order_ref = "order";
  amount = pos 1000;
  currency = "USD";
  card_token = "tok";
  status = status;
  decline_reason = "";
  idempotency_key = key;
  purchase_idempotency_key = "";
  product_id = none;
  refunded_amount = pos taken;
  created_at = 1;
  updated_at = at;
}

abbrev pub refund_300 : Refund
refund_300 = record {
  id = 19;
  transaction_id = 2;
  amount = pos 300;
  status = refund_pending;
  idempotency_key = "ref";
  created_at = 18;
  updated_at = 18;
}

abbrev pub holding : TransactionRow → Store
holding row = record { transactions = row ∷ []; refunds = []; products = [] }

-- After the authorization, the capture, the two parts of the settlement, and a refund.
abbrev pub reserved_funds : Gateway
reserved_funds = record {
  tick = 4;
  store = holding (order_row authorized none 0 1);
  sent = [];
  tasks = [];
}

abbrev pub collecting : Gateway
collecting = record {
  tick = 9;
  store = holding (order_row capture_pending (some "cap") 0 6);
  sent = [];
  tasks = settle (order_tx capture_pending "cap" 0 6) (pos 1000) ∷ [];
}

abbrev pub settled : Gateway
settled = record {
  tick = 10;
  store = holding (order_row capture_pending (some "cap") 0 6);
  sent = [];
  tasks = settle_write (order_tx capture_pending "cap" 0 6) captured ∷ [];
}

abbrev pub paid : Gateway
paid = record {
  tick = 14;
  store = holding (order_row captured (some "cap") 0 10);
  sent =
      record {
        event = "transaction.capture_pending";
        transaction_id = "uuid";
        refund_id = "";
        order_id = "order";
        merchant_id = "merchant";
        status = "capture_pending";
        amount = pos 1000;
        currency = "USD";
        timestamp = "time";
      }
      ∷ [];
  tasks = [];
}

abbrev pub refunding : Gateway
refunding = record paid {
  tick = 22;
  store = record {
    transactions = order_row partially_refunded (some "cap") 300 16 ∷ [];
    refunds =
        record {
          id = 19;
          transaction_id = 2;
          amount = pos 300;
          status = refund_pending;
          idempotency_key = some "ref";
          created_at = 18;
          updated_at = 18;
        }
        ∷ [];
    products = [];
  };
  tasks = refund (order_tx partially_refunded "cap" 300 16) refund_300 ∷ [];
}
