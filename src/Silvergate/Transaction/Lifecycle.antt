-- ===== src/Silvergate/Transaction/Lifecycle.antt =====
-- services/silvergate/internal/transaction/entity.go against its own table of allowed transitions:
-- the table is used by no other function of the file.
use distributed_payment_mana.Prelude.{ℤ, String, Bool, true, false, ◌≡◌, arith}
use distributed_payment_mana.Exec.{Result, ok, err}
use distributed_payment_mana.Postgres.{Time}
use distributed_payment_mana.Silvergate.Transaction.Entity.{
  capture_pending, captured, capture_failed, voided, Transaction, mark_capture_pending,
  mark_captured, mark_capture_failed, mark_voided, can_transition_to,
}
use distributed_payment_mana.Silvergate.Transaction.Service.{reserve_refund}

abbrev pub is_ok : {E A : Type 0} → Result E A → Bool
is_ok (ok a) = true
is_ok (err e) = false

-- Each of the four marks succeeds from exactly the statuses from which the table of allowed
-- transitions has its target.
pub marks-can_transition_to :
    (at : Time) (key : String) (t : Transaction)
    → (is_ok (mark_capture_pending at key t) ≡ can_transition_to t.status capture_pending)
      × (is_ok (mark_captured at t) ≡ can_transition_to t.status captured)
      × (is_ok (mark_capture_failed at t) ≡ can_transition_to t.status capture_failed)
      × (is_ok (mark_voided at t) ≡ can_transition_to t.status voided)
unfolding mark_capture_pending mark_captured mark_capture_failed mark_voided can_transition_to
marks-can_transition_to at key t = ground arith

-- A refund that is reserved moves its transaction along the table of allowed transitions.
pub reserve_refund-can_transition_to :
    (at : Time) (amount : ℤ) (t u : Transaction)
    → reserve_refund at amount t ≡ ok u
    → can_transition_to t.status u.status ≡ true
unfolding reserve_refund can_transition_to
reserve_refund-can_transition_to at amount t u h = ground arith
