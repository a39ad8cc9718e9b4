-- ===== src/Silvergate/Transaction/Settlement.antt =====
-- services/silvergate/internal/transaction/service.go: settleAsync, refundAsync and the goroutine of
-- Void. Each is written twice: whole, as the source has it, and as parts that end after a call to
-- the outside, after each of which another request may run. Logging and the pauses are left out.
mod Segments
pub mod Webhooks
pub mod Writes
use distributed_payment_mana.Prelude.{
  ℕ, zero, suc, ℤ, String, Bool, Option, none, some, List, [], ◌∷◌, ◌++◌, if◌then◌else◌,
}
use distributed_payment_mana.Exec.{
  Exec, Result, ok, err, attempt, map_err, lift, pure, raise, modify, ◌>>=◌, ◌>>◌,
}
use distributed_payment_mana.Postgres.{Env, now}
use distributed_payment_mana.Silvergate.Errors.{Error}
use distributed_payment_mana.Silvergate.Acquirer.{Acquirer, BankResult}
use distributed_payment_mana.Silvergate.Transaction.Entity.{
  Status, capture_pending, captured, capture_failed, Transaction, RefundStatus, refund_pending,
  refund_done, refund_failed, Refund, mark_refunded, mark_failed,
}
use distributed_payment_mana.Silvergate.Transaction.Repo.{
  compare_and_update_status, update_refund_status, release_refund_amount,
}
use distributed_payment_mana.Silvergate.Transaction.Service.{ask}
use distributed_payment_mana.Silvergate.Sender.{send_capture_result, send_refund_result}
use distributed_payment_mana.Silvergate.Runtime.{
  Gateway, Call, Outside, Task, settle, settle_write, refund, refund_write, release, refund_notify,
  void_notify,
}

-- const maxRetries
abbrev pub max_retries : ℕ
max_retries = 3

-- The status that settleAsync writes.
unfoldable pub next_status : Result Error BankResult → Status
next_status (err e) = capture_failed
next_status (ok r) = if r.success then captured else capture_failed

abbrev pub is_failed : RefundStatus → Bool
is_failed refund_failed = Bool.true
is_failed _ = Bool.false

-- An error is only logged.
abbrev pub logged : Call (Unit {0}) → Call (Unit {0})
logged m = attempt m >> pure tt

abbrev pub write_next : Transaction → Refund → Result Error (Unit {0}) → List Task
write_next tx r (err e) = []
write_next tx r (ok _) =
    if is_failed r.status then release max_retries tx r ∷ [] else refund_notify tx r ∷ []

abbrev pub release_next : ℕ → Transaction → Refund → Result Error (Unit {0}) → List Task
release_next n tx r (ok _) = refund_notify tx r ∷ []
release_next n tx r (err e) = release n tx r ∷ []

module _ (out : Outside) where
  unfoldable pub settle_outcome : Transaction → ℤ → Call Status
  unfolding ask next_status ◌>>=◌
  settle_outcome tx amount = do
    result ← attempt (ask (λ n. out.bank.settle n (out.env.uuid_string tx.id) amount))
    pure (next_status result)

  abbrev after_settle : Transaction → Result Error (Unit {0}) → Call (Unit {0})
  after_settle tx (err e) = pure tt
  after_settle tx (ok _) = logged (send_capture_result out tx)

  unfoldable pub settle_finish : Transaction → Status → Call (Unit {0})
  settle_finish tx next = do
    written ← attempt (compare_and_update_status out.env tx.id capture_pending next)
    after_settle tx written

  unfoldable pub settle_async : Transaction → ℤ → Call (Unit {0})
  settle_async tx amount = do next ← settle_outcome tx amount; settle_finish tx next

  abbrev marked_refund : Refund → ℕ → Result Error BankResult → Refund
  marked_refund r at (err e) = mark_failed at r
  marked_refund r at (ok result) = if result.success then mark_refunded at r else mark_failed at r

  unfoldable pub refund_outcome : Transaction → Refund → Call Refund
  unfolding ask now mark_failed mark_refunded ◌>>=◌
  refund_outcome tx r = do
    result ← attempt (ask (λ n. out.bank.refund n (out.env.uuid_string tx.id) r.amount))
    at ← now out.env
    pure (marked_refund r at result)

  -- The loop over the attempts: it ends at the first that succeeds.
  unfoldable pub release_loop : ℕ → Transaction → Refund → Call (Unit {0})
  release_loop zero tx r = pure tt
  release_loop (suc n) tx r =
      let again = release_loop n tx r in
      attempt (release_refund_amount out.env tx.id r.amount)
      >>= elim [ ok _ ↦ pure tt | err e ↦ again ]

  abbrev pub release_if : Bool → Transaction → Refund → Call (Unit {0})
  release_if Bool.true tx r = release_loop max_retries tx r
  release_if Bool.false tx r = pure tt

  abbrev pub after_refund : Transaction → Refund → Result Error (Unit {0}) → Call (Unit {0})
  after_refund tx r (err e) = pure tt
  after_refund tx r (ok _) =
      release_if (is_failed r.status) tx r >> logged (send_refund_result out tx r)

  unfoldable pub refund_async : Transaction → Refund → Call (Unit {0})
  refund_async tx r = do
    marked ← refund_outcome tx r
    written ← attempt (update_refund_status out.env marked)
    after_refund tx marked written

  -- The goroutine of Void.
  unfoldable pub void_async : Transaction → Call (Unit {0})
  void_async tx = logged (send_capture_result out tx)

  -- One part of a goroutine, and what is left of it.
  unfoldable pub run_task : Task → Call (List Task)
  run_task (settle tx amount) = do next ← settle_outcome tx amount; pure (settle_write tx next ∷ [])
  run_task (settle_write tx next) = settle_finish tx next >> pure []
  run_task (refund tx r) = do marked ← refund_outcome tx r; pure (refund_write tx marked ∷ [])
  run_task (refund_write tx r) = do
    written ← attempt (update_refund_status out.env r)
    pure (write_next tx r written)
  run_task (release zero tx r) = pure (refund_notify tx r ∷ [])
  run_task (release (suc n) tx r) = do
    released ← attempt (release_refund_amount out.env tx.id r.amount)
    pure (release_next n tx r released)
  run_task (refund_notify tx r) = logged (send_refund_result out tx r) >> pure []
  run_task (void_notify tx) = logged (send_capture_result out tx) >> pure []
