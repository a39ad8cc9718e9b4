-- ===== src/Silvergate/Tests/Payments.antt =====
-- Payments on concrete inputs.
use distributed_payment_mana.Prelude.{
  ◌+i64◌, ◌-i64◌, pos, true, all, any, none, some, [], ◌∷◌, ◌≡◌, refl, ◌≤◌, ◌+◌,
}
use distributed_payment_mana.Exec.{ok, err, ◌>>=◌}
use distributed_payment_mana.Postgres.{now, new_uuid, in_transaction}
use distributed_payment_mana.Silvergate.Tables
use distributed_payment_mana.Silvergate.Tables.{find}
use distributed_payment_mana.Silvergate.Runtime.{Gateway, settle, settle_write, void_notify}
use distributed_payment_mana.Silvergate.Sender
use distributed_payment_mana.Silvergate.Transaction.Entity
use distributed_payment_mana.Silvergate.Transaction.Entity.{
  authorized, capture_pending, captured, capture_failed, voided, partially_refunded, Transaction,
  Refund, refund_pending,
}
use distributed_payment_mana.Silvergate.Transaction.Repo
use distributed_payment_mana.Silvergate.Transaction.Service
use distributed_payment_mana.Silvergate.Transaction.Settlement
use distributed_payment_mana.Silvergate.Errors.{
  transaction, refund_exceeds_amount, invalid_transition,
}
use distributed_payment_mana.Silvergate.Transaction.Service.Atomic.{
  Unchanged, capture_error, refund_error, void_error,
}
use distributed_payment_mana.Silvergate.Transaction.Service.Effects.{
  Captured, Voided, Refunding, capture-Captured, void-Voided, refund_payment-Refunding,
}
use distributed_payment_mana.Silvergate.Transaction.Settlement.Webhooks.{Stale, settle_async-Stale}
use distributed_payment_mana.Silvergate.Transaction.Lifecycle.{
  is_ok, marks-can_transition_to, reserve_refund-can_transition_to,
}
use distributed_payment_mana.Silvergate.Ledger.{Ledger, paid_back, in_flight, owed}
use distributed_payment_mana.Silvergate.Machine.{
  Step, start, handle, resume, Reach, here, next, request, goes_on, to_authorize, to_capture,
  to_refund,
}
use distributed_payment_mana.Silvergate.Machine.Refunds.{
  refunds_covered, run_pays, step_pays, Step-Ledger, start-Ledger,
}
use distributed_payment_mana.Silvergate.Tests.{
  shop, order, collect, give_back, order_row, order_tx, reserved_funds, collecting, settled, paid,
  refunding, holding,
}

is_authorized : reserved_funds ≡ handle shop (to_authorize order) start
unfolding handle Service.authorize ◌>>=◌ Service.authorize_in_tx Service.ask now new_uuid
    Repo.create all Tables.transaction_checks Tables.clashes any Tables.product_exists
    Service.tag_purchase Service.authorization
is_authorized = refl

is_collecting : collecting ≡ handle shop (to_capture collect) reserved_funds
unfolding handle Service.capture ◌>>=◌ in_transaction Service.capture_in_tx Repo.get_by_id now
    Entity.mark_capture_pending Repo.update_status all Tables.transaction_checks Tables.clashes any
    Tables.product_exists
is_collecting = refl

is_settled :
    settled ≡ resume shop [] (settle (order_tx capture_pending "cap" 0 6) (pos 1000)) collecting
unfolding resume Settlement.run_task ◌>>=◌ Settlement.settle_outcome
is_settled = refl

is_paid : paid ≡ resume shop [] (settle_write (order_tx capture_pending "cap" 0 6) captured) settled
unfolding resume Settlement.run_task ◌>>=◌ Settlement.settle_finish Repo.compare_and_update_status
    all Tables.transaction_checks Tables.clashes any Tables.product_exists
    Sender.send_capture_result
is_paid = refl

is_refunding : refunding ≡ handle shop (to_refund (give_back 300)) paid
unfolding handle Service.refund_payment ◌>>=◌ in_transaction Service.refund_in_tx Repo.get_by_id now
    new_uuid Service.reserve_refund ◌+i64◌ ◌-i64◌ Entity.new_refund_pending Repo.update_refund
    Repo.create_refund all Tables.transaction_checks Tables.clashes any Tables.product_exists
    Tables.refund_checks Tables.transaction_exists
is_refunding = refl

refunding_reached : Reach shop start refunding
refunding_reached =
    next
      (next
        (next
          (next (next here (request (to_authorize order) is_authorized))
            (request (to_capture collect) is_collecting))
          (goes_on [] (settle (order_tx capture_pending "cap" 0 6) (pos 1000)) [] refl is_settled))
        (goes_on [] (settle_write (order_tx capture_pending "cap" 0 6) captured) [] refl is_paid))
      (request (to_refund (give_back 300)) is_refunding)

refunds_covered_example :
    (run_pays refunding_reached 2 + owed 2 refunding.tasks ≤ 300)
    × (paid_back 2 refunding.store.refunds + in_flight 2 refunding.tasks ≤ 300)
    × (300 ≤ 1000)
refunds_covered_example =
    refunds_covered shop refunding refunding_reached 2
      (order_row partially_refunded (some "cap") 300 16) (unfold find in refl)

authorizes : Step shop start reserved_funds
authorizes = request (to_authorize order) is_authorized

Step-Ledger_example : Ledger (λ id. 0 + step_pays authorizes id) reserved_funds
Step-Ledger_example =
    Step-Ledger {paid = λ id. 0} {out = shop} {w = start} {v = reserved_funds} authorizes
      start-Ledger

-- The next calls of the outside, after the row was read.
abbrev three_later : Gateway
three_later = record paid { tick = 17 }

refund_refused :
    Service.refund_payment shop (give_back 5000) paid
    ≡ (err (transaction refund_exceeds_amount), three_later)
unfolding Service.refund_payment ◌>>=◌ in_transaction Service.refund_in_tx Repo.get_by_id now
    Service.reserve_refund ◌+i64◌ ◌-i64◌
refund_refused = refl

refund_error_example : Unchanged paid three_later
refund_error_example =
    refund_error shop paid {e = transaction refund_exceeds_amount} {v = three_later}
      (give_back 5000) refund_refused

void_refused : Service.void shop 2 paid ≡ (err (transaction invalid_transition), three_later)
unfolding Service.void ◌>>=◌ in_transaction Service.void_in_tx Repo.get_by_id_for_update now
    Entity.mark_voided
void_refused = refl

void_error_example : Unchanged paid three_later
void_error_example =
    void_error shop paid {e = transaction invalid_transition} {v = three_later} 2 void_refused

capture_refused :
    Service.capture shop collect paid ≡ (err (transaction invalid_transition), three_later)
unfolding Service.capture ◌>>=◌ in_transaction Service.capture_in_tx Repo.get_by_id now
    Entity.mark_capture_pending
capture_refused = refl

capture_error_example : Unchanged paid three_later
capture_error_example =
    capture_error shop paid {e = transaction invalid_transition} {v = three_later} collect
      capture_refused

abbrev unknown_answer : Service.CaptureResponse
unknown_answer = record { transaction_id = 2; status = capture_pending }

captured_ok : Service.capture shop collect reserved_funds ≡ (ok unknown_answer, collecting)
unfolding Service.capture ◌>>=◌ in_transaction Service.capture_in_tx Repo.get_by_id now
    Entity.mark_capture_pending Repo.update_status all Tables.transaction_checks Tables.clashes any
    Tables.product_exists
captured_ok = refl

capture-Captured_example : Captured collect unknown_answer reserved_funds collecting
capture-Captured_example =
    capture-Captured shop reserved_funds {v = collecting} collect {resp = unknown_answer}
      captured_ok

abbrev cancelled : Gateway
cancelled = record {
  tick = 10;
  store = holding (order_row voided none 0 6);
  sent = [];
  tasks = void_notify (order_tx voided "" 0 6) ∷ [];
}

abbrev void_answer : Service.VoidResponse
void_answer = record { transaction_id = 2; status = voided }

voided_ok : Service.void shop 2 reserved_funds ≡ (ok void_answer, cancelled)
unfolding Service.void ◌>>=◌ in_transaction Service.void_in_tx Repo.get_by_id_for_update now
    Service.ask Entity.mark_voided Repo.update_status all Tables.transaction_checks Tables.clashes
    any Tables.product_exists
voided_ok = refl

void-Voided_example : Voided 2 void_answer reserved_funds cancelled
void-Voided_example =
    void-Voided shop reserved_funds {v = cancelled} 2 {resp = void_answer} voided_ok

abbrev refund_answer : Service.RefundResponse
refund_answer = record {
  refund_id = 19;
  transaction_id = 2;
  amount = pos 300;
  status = refund_pending;
}

refunded_ok : Service.refund_payment shop (give_back 300) paid ≡ (ok refund_answer, refunding)
unfolding Service.refund_payment ◌>>=◌ in_transaction Service.refund_in_tx Repo.get_by_id now
    new_uuid Service.reserve_refund ◌+i64◌ ◌-i64◌ Entity.new_refund_pending Repo.update_refund
    Repo.create_refund all Tables.transaction_checks Tables.clashes any Tables.product_exists
    Tables.refund_checks Tables.transaction_exists
refunded_ok = refl

refund_payment-Refunding_example : Refunding (give_back 300) refund_answer paid refunding
refund_payment-Refunding_example =
    refund_payment-Refunding shop paid {v = refunding} (give_back 300) {resp = refund_answer}
      refunded_ok

abbrev pending_tx : Transaction
pending_tx = order_tx capture_pending "cap" 0 6

settle_async-Stale_example :
    Stale collecting.sent (Settlement.settle_async shop pending_tx (pos 1000) collecting).1.sent
settle_async-Stale_example = settle_async-Stale shop pending_tx (pos 1000) collecting refl

marks-can_transition_to_example :
    (is_ok (Entity.mark_capture_pending 9 "k" pending_tx)
      ≡ Entity.can_transition_to capture_pending capture_pending)
    × (is_ok (Entity.mark_captured 9 pending_tx)
        ≡ Entity.can_transition_to capture_pending captured)
    × (is_ok (Entity.mark_capture_failed 9 pending_tx)
        ≡ Entity.can_transition_to capture_pending capture_failed)
    × (is_ok (Entity.mark_voided 9 pending_tx) ≡ Entity.can_transition_to capture_pending voided)
marks-can_transition_to_example = marks-can_transition_to 9 "k" pending_tx

reserve_refund-can_transition_to_example :
    Entity.can_transition_to captured partially_refunded ≡ true
reserve_refund-can_transition_to_example =
    reserve_refund-can_transition_to 16 (pos 300) (order_tx captured "cap" 0 10)
      (order_tx partially_refunded "cap" 300 16)
      (unfold Service.reserve_refund ◌+i64◌ ◌-i64◌ in refl)
