-- ===== src/Ingest/Worker.antt =====
-- services/ingest/worker/inbox_worker.go. Start only calls `poll` at every tick.
pub mod Effects
pub mod Forwarding
pub mod Retries
pub mod Rows
use distributed_payment_mana.Prelude.{
  ℕ, ℤ, pos, String, Bool, true, false, Option, none, some, List, [], ◌∷◌, str_eq, if◌then◌else◌,
}
use distributed_payment_mana.Exec.{Exec, Result, ok, err, attempt, lift, pure, raise, ◌>>=◌, ◌>>◌}
use distributed_payment_mana.Ingest.ApiClient.{
  Outside, Call, Failure, bad_request, not_found, invalid_status, conflict, unmarshal, unknown_type,
  InboxRow, send_order_update, send_dispute_update,
}
use distributed_payment_mana.Ingest.Inbox.{fetch_pending, mark_processed, mark_failed}

-- Config; `max_attempts` is the client's.
pub record Config : Type 0 where
  pub batch_size : ℤ
  pub max_retries : ℤ
  pub max_attempts : ℤ

abbrev pub read : {A : Type 0} → Option A → Result Failure A
read none = err unmarshal
read (some a) = ok a

-- A conflict means that the message was processed already.
abbrev pub conflict_or : Result Failure (Unit {0}) → Result Failure (Unit {0})
conflict_or (err conflict) = ok tt
conflict_or r = r

unfoldable pub is_permanent_error : Failure → Bool
is_permanent_error bad_request = true
is_permanent_error not_found = true
is_permanent_error invalid_status = true
is_permanent_error e = false

module _ (out : Outside) (cfg : Config) where
  -- The two cases of processMessage.
  unfoldable pub process_order : InboxRow → Call (Unit {0})
  process_order m = do
    req ← lift (read (out.decode_order m.payload))
    sent ← attempt (send_order_update out cfg.max_attempts req)
    lift (conflict_or sent)

  unfoldable pub process_dispute : InboxRow → Call (Unit {0})
  process_dispute m = do
    req ← lift (read (out.decode_dispute m.payload))
    sent ← attempt (send_dispute_update out cfg.max_attempts req)
    lift (conflict_or sent)

  unfoldable pub process_message : InboxRow → Call (Unit {0})
  process_message m =
      if str_eq m.webhook_type "order_update"
      then process_order m
      else if str_eq m.webhook_type "dispute_update"
      then process_dispute m
      else raise unknown_type

  -- An error of either mark is only logged.
  unfoldable pub mark : InboxRow → Result Failure (Unit {0}) → Call (Unit {0})
  mark m (ok _) = attempt (mark_processed out m.id) >> pure tt
  mark m (err e) =
      attempt (
        mark_failed out m.id (out.error_text e)
          (if is_permanent_error e then pos 0 else cfg.max_retries))
      >> pure tt

  unfoldable pub handle : InboxRow → Call (Unit {0})
  handle m = do done ← attempt (process_message m); mark m done

  unfoldable pub handle_all : List InboxRow → Call (Unit {0})
  unfolding handle
  handle_all [] = pure tt
  handle_all (m ∷ ms) = handle m >> handle_all ms

  abbrev pub fetched : Result Failure (List InboxRow) → Call (Unit {0})
  fetched (err e) = pure tt
  fetched (ok ms) = handle_all ms

  unfoldable pub poll : Call (Unit {0})
  poll = do ms ← attempt (fetch_pending out cfg.batch_size); fetched ms
