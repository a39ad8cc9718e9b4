-- ===== src/Messaging.antt =====
-- pkg/messaging/middleware.go, and the loop of pkg/kafka/consumer.go with pkg/kafka/dlq_publisher.go:
-- how a message of a topic is handled, tried again, put aside and committed. Waiting, logging and
-- metrics are left out; WithMetrics passes the error on as it is.
pub mod Outcome
mod Tests
use distributed_payment_mana.Prelude.{
  ℕ, zero, suc, ◌+◌, ℤ, pos_part, String, Bool, true, false, List, [], ◌∷◌, ◌++◌, if◌then◌else◌,
}
use distributed_payment_mana.Exec.{Exec, Result, ok, err, pure, ◌>>=◌, ◌>>◌}

pub record Message : Type 0 where
  pub key : String
  pub value : String

-- The state of the service behind the handler, and of its consumer: the dead letter topic, and the
-- messages whose offsets have been committed, each the latest last.
pub record Consumer (S : Type 0) : Type 0 where
  pub tick : ℕ
  pub service : S
  pub dead_letters : List Message
  pub committed : List Message

-- The errors of a handler, and what the middleware adds to them.
pub data Failure (E : Type 0) : Type 0 where
  handler : E → Failure E
  max_retries_exceeded : E → Failure E
  -- with no attempt at all there is no error to join
  no_attempts : Failure E
  cancelled : Failure E

abbrev pub MessageHandler : Type 0 → Type 0 → Type 0
MessageHandler S E = Message → Exec (Consumer S) E (Unit {0})

-- By the number of the call: whether the context is done when a retry waits; whether the dead letter
-- topic takes a message; whether the broker takes a commit.
pub record Broker : Type 0 where
  pub is_done : ℕ → Bool
  pub takes_letter : ℕ → Bool
  pub takes_commit : ℕ → Bool

module _ {S : Type 0} where
  abbrev pub ticked : Consumer S → Consumer S
  ticked c = record c { tick = c.tick + 1 }

module _ {S E : Type 0} (broker : Broker) where
  -- WithRetry after an attempt: `left` attempts are left, and `again` are they.
  abbrev pub after_attempt :
      ℕ
      → Exec (Consumer S) (Failure E) (Unit {0})
      → Result E (Unit {0}) × Consumer S
      → Result (Failure E) (Unit {0}) × Consumer S
  after_attempt left again (ok _, c) = (ok tt, c)
  after_attempt zero again (err e, c) = (err (max_retries_exceeded e), c)
  after_attempt (suc n) again (err e, c) =
      if broker.is_done c.tick then (err cancelled, ticked c) else again (ticked c)

  unfoldable pub attempts : ℕ → MessageHandler S E → MessageHandler S (Failure E)
  attempts zero h m c = (err no_attempts, c)
  attempts (suc n) h m c = let again = attempts n h m in after_attempt n again (h m c)

  -- WithRetry
  unfoldable pub with_retry : ℤ → MessageHandler S E → MessageHandler S (Failure E)
  with_retry max_attempts h = attempts (pos_part max_attempts) h

  -- WithDLQ: the error of PublishToDLQ is dropped.
  abbrev pub put_aside :
      Message → Result E (Unit {0}) × Consumer S → Result E (Unit {0}) × Consumer S
  put_aside m (ok _, c) = (ok tt, c)
  put_aside m (err e, c) =
      if broker.takes_letter c.tick
      then (ok tt, record (ticked c) { dead_letters = c.dead_letters ++ m ∷ [] })
      else (ok tt, ticked c)

  unfoldable pub with_dlq : MessageHandler S E → MessageHandler S E
  with_dlq h m c = put_aside m (h m c)

  abbrev commit : Message → Result E (Unit {0}) × Consumer S → Consumer S
  commit m (ok _, c) =
      if broker.takes_commit c.tick
      then record (ticked c) { committed = c.committed ++ m ∷ [] }
      else ticked c
  commit m (err e, c) = c

  -- One turn of (*Consumer).Start for a message that was fetched.
  unfoldable pub consume : MessageHandler S E → Message → Consumer S → Consumer S
  consume h m c = commit m (h m c)

-- The handlers of services/paymanager/workers.go.
unfoldable pub worker :
    {S E : Type 0} → Broker → MessageHandler S E → Message → Consumer S → Consumer S
worker broker h = consume broker (with_dlq broker (with_retry broker (ℤ.pos 3) h))
