-- ===== src/Silvergate/Transaction/Settlement/Webhooks.antt =====
-- The webhook that settleAsync of services/silvergate/internal/transaction/service.go posts.
use distributed_payment_mana.Prelude.{
  ℤ, List, [], ◌∷◌, ◌++◌, ◌≡◌, ◌⊎◌, inl, inr, refl, sym, ap, subst, ◌∙◌, arith,
}
use distributed_payment_mana.Exec.{Result, ok, err, ◌>>=◌}
use distributed_payment_mana.Postgres.{now}
use distributed_payment_mana.Silvergate.Errors.{Error}
use distributed_payment_mana.Silvergate.Transaction.Entity.{
  Status, Transaction, capture_pending, status_string,
}
use distributed_payment_mana.Silvergate.Runtime.{Gateway, Event, Outside}
use distributed_payment_mana.Silvergate.Sender.{send_capture_result, send_event, capture_event_name}
use distributed_payment_mana.Silvergate.Transaction.Settlement.{
  settle_async, settle_outcome, settle_finish,
}
use distributed_payment_mana.Silvergate.Transaction.Service.{ask}
use distributed_payment_mana.Silvergate.Transaction.Repo.{compare_and_update_status}
use distributed_payment_mana.Silvergate.Transaction.Repo.Outcome.{compare_and_update_status-Quiet}

settle_outcome_sent :
    (out : Outside) (tx : Transaction) (amount : ℤ) (w : Gateway)
    → (settle_outcome out tx amount w).1.sent ≡ w.sent
unfolding settle_outcome ask ◌>>=◌
settle_outcome_sent out tx amount w = ground arith

-- The webhook of a transaction that Capture has marked.
abbrev pub Stale : List Event → List Event → Type 0
Stale before after =
    (after ≡ before)
    ⊎ ((evt : Event) × (after ≡ before ++ evt ∷ [])
        × (evt.event ≡ "transaction.capture_pending")
        × (evt.status ≡ "capture_pending"))

capture_result-Stale :
    (out : Outside) (tx : Transaction) (w : Gateway)
    → tx.status ≡ capture_pending
    → Stale w.sent (send_capture_result out tx w).1.sent
unfolding send_capture_result send_event ◌>>=◌ now capture_event_name status_string
capture_result-Stale out tx w h = inr (_, refl, rw h refl, rw h refl)

settle_finish-Stale :
    (out : Outside) (tx : Transaction) (next : Status) (w : Gateway)
    → tx.status ≡ capture_pending
    → Stale w.sent (settle_finish out tx next w).1.sent
unfolding settle_finish ◌>>=◌
settle_finish-Stale out tx next w h =
    at (compare_and_update_status out.env tx.id capture_pending next w) refl
  where
    at :
        (q : Result Error (Unit {0}) × Gateway)
        → compare_and_update_status out.env tx.id capture_pending next w ≡ q
        → Stale w.sent (settle_finish out tx next w).1.sent
    at (err x, v) e = rw e (
        inl (
          ap (λ (p : Result Error (Unit {0}) × Gateway). p.1.sent) (sym e)
          ∙ (compare_and_update_status-Quiet out.env w tx.id capture_pending next).0))
    at (ok _, v) e = rw e (
        subst (λ (s : List Event). Stale s (send_capture_result out tx v).1.sent)
          (ap (λ (p : Result Error (Unit {0}) × Gateway). p.1.sent) (sym e)
            ∙ (compare_and_update_status-Quiet out.env w tx.id capture_pending next).0)
          (capture_result-Stale out tx v h))

-- A settlement posts at most one webhook; for a transaction that Capture has marked, it says
-- "transaction.capture_pending" with the status "capture_pending", whether the bank has settled
-- the capture or refused it, and whatever status was written.
pub settle_async-Stale :
    (out : Outside) (tx : Transaction) (amount : ℤ) (w : Gateway)
    → tx.status ≡ capture_pending
    → Stale w.sent (settle_async out tx amount w).1.sent
unfolding settle_async ◌>>=◌
settle_async-Stale out tx amount w h = at (settle_outcome out tx amount w) refl
  where
    at :
        (q : Result Error Status × Gateway)
        → settle_outcome out tx amount w ≡ q
        → Stale w.sent (settle_async out tx amount w).1.sent
    at (ok next, v) e = rw e (
        subst (λ (s : List Event). Stale s (settle_finish out tx next v).1.sent)
          (ap (λ (p : Result Error Status × Gateway). p.1.sent) (sym e)
            ∙ settle_outcome_sent out tx amount w)
          (settle_finish-Stale out tx next v h))
    at (err x, v) e = rw e (
        inl (
          ap (λ (p : Result Error Status × Gateway). p.1.sent) (sym e)
          ∙ settle_outcome_sent out tx amount w))
