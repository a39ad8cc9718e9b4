-- ===== src/Silvergate/Transaction/Settlement/Segments.antt =====
-- The goroutines of services/silvergate/internal/transaction/service.go cut at their calls to the
-- outside, against the whole functions.
use distributed_payment_mana.Prelude.{
  ℕ, zero, suc, ◌+◌, ℤ, List, [], ◌∷◌, ◌≡◌, refl, arith, inl, inr, Bool-cases,
}
use distributed_payment_mana.Exec.{Result, ok, err, attempt, pure, ◌>>=◌, ◌>>◌}
use distributed_payment_mana.Silvergate.Errors.{Error}
use distributed_payment_mana.Silvergate.Transaction.Entity.{Transaction, Refund}
use distributed_payment_mana.Silvergate.Runtime.{
  Gateway, Call, Outside, Task, settle, refund, refund_write, release, refund_notify,
}
use distributed_payment_mana.Silvergate.Transaction.Repo.{
  update_refund_status, release_refund_amount,
}
use distributed_payment_mana.Silvergate.Transaction.Settlement.{
  settle_async, settle_outcome, settle_finish, refund_async, refund_outcome, release_loop, run_task,
  max_retries, after_refund, is_failed,
}
use distributed_payment_mana.Silvergate.Sender.{send_refund_result}

abbrev first_with : (Task → Call (Unit {0})) → List Task → Call (Unit {0})
first_with f [] = pure tt
first_with f (t ∷ ts) = f t

-- A goroutine with nothing in between: up to so many parts one after the other.
unfoldable alone : Outside → ℕ → Task → Call (Unit {0})
alone out zero t = pure tt
alone out (suc n) t = run_task out t >>= first_with (alone out n)

-- The parts of settleAsync, run one after the other, are settleAsync.
settle_alone :
    (out : Outside) (tx : Transaction) (amount : ℤ) (w : Gateway)
    → alone out 2 (settle tx amount) w ≡ settle_async out tx amount w
unfolding alone run_task settle_async settle_outcome settle_finish ◌>>=◌
settle_alone out tx amount w = ground arith

abbrev announced : Outside → Transaction → Refund → Call (Unit {0})
announced out tx r = attempt (send_refund_result out tx r) >> pure tt

notify_alone :
    (out : Outside) (n : ℕ) (tx : Transaction) (r : Refund) (w : Gateway)
    → alone out (suc n) (refund_notify tx r) w ≡ announced out tx r w
unfolding alone run_task ◌>>=◌
notify_alone out n tx r w = ground arith

release_alone :
    (out : Outside) (n : ℕ) (tx : Transaction) (r : Refund) (w : Gateway)
    → alone out (suc (suc n)) (release n tx r) w ≡ (release_loop out n tx r >> announced out tx r) w
unfolding alone run_task release_loop ◌>>=◌
release_alone out zero tx r w = notify_alone out 0 tx r w
release_alone out (suc n) tx r w =
    at (release_alone out n tx r) (release_refund_amount out.env tx.id r.amount w) refl
  where
    at :
        ((v : Gateway)
          → alone out (suc (suc n)) (release n tx r) v
            ≡ (release_loop out n tx r >> announced out tx r) v)
        → (q : Result Error (Unit {0}) × Gateway)
        → release_refund_amount out.env tx.id r.amount w ≡ q
        → alone out (suc (suc (suc n))) (release (suc n) tx r) w
          ≡ (release_loop out (suc n) tx r >> announced out tx r) w
    at fewer (ok _, v) e = rw e (notify_alone out (suc n) tx r v)
    at fewer (err x, v) e = rw e (fewer v)

-- The parts of refundAsync, its attempts to give the amount back included, run one after the other,
-- are refundAsync.
refund_alone :
    (out : Outside) (tx : Transaction) (r : Refund) (w : Gateway)
    → alone out (max_retries + 4) (refund tx r) w ≡ refund_async out tx r w
unfolding alone run_task refund_async ◌>>=◌
refund_alone out tx r w = at (refund_outcome out tx r w) refl
  where
    written :
        (m : Refund) (q : Result Error (Unit {0}) × Gateway) (v : Gateway)
        → update_refund_status out.env m v ≡ q
        → alone out (max_retries + 3) (refund_write tx m) v
          ≡ (attempt (update_refund_status out.env m) >>= after_refund out tx m) v
    written m (err x, u) v e = rw e refl
    written m (ok _, u) v e = rw e (elim (Bool-cases (is_failed m.status)) [
      | inl failed ↦ rw failed (release_alone out max_retries tx m u)
      | inr paid ↦ rw paid (notify_alone out (max_retries + 1) tx m u)
    ])

    at :
        (q : Result Error Refund × Gateway)
        → refund_outcome out tx r w ≡ q
        → alone out (max_retries + 4) (refund tx r) w ≡ refund_async out tx r w
    at (ok m, v) e = rw e (written m (update_refund_status out.env m v) v refl)
    at (err x, v) e = rw e refl
