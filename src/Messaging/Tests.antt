-- ===== src/Messaging/Tests.antt =====
-- The middleware of messages on concrete inputs.
use distributed_payment_mana.Prelude.{
  ℕ, ◌+◌, ◌≤◌, pos, true, false, String, [], ◌∷◌, ◌++◌, ◌≡◌, refl, ◌⊎◌, arith,
}
use distributed_payment_mana.Exec.{ok, err}
use distributed_payment_mana.Messaging.{
  Message, Consumer, MessageHandler, Broker, with_retry, attempts, worker,
}
use distributed_payment_mana.Messaging.Outcome.{with_retry-cost, worker-committed}

abbrev calm : Broker
calm = record { is_done = λ n. false; takes_letter = λ n. false; takes_commit = λ n. true }

-- A handler that counts its runs and always fails.
abbrev failing : MessageHandler ℕ String
failing m c = (err "down", record c { service = c.service + 1 })

abbrev message : Message
message = record { key = "k"; value = "v" }

abbrev fresh : Consumer ℕ
fresh = record { tick = 0; service = 0; dead_letters = []; committed = [] }

three_runs : (with_retry calm (pos 3) failing message fresh).1.service ≡ 3
unfolding with_retry attempts
three_runs = refl

with_retry-cost_example : (with_retry calm (pos 3) failing message fresh).1.service ≤ 0 + 3
with_retry-cost_example =
    with_retry-cost calm failing (λ c. c.service) (λ m c. omega arith) (λ c. refl) (pos 3) message
      fresh

-- The message is lost.
worker-committed_example :
    ((worker calm failing message fresh).committed
      ≡ (with_retry calm (pos 3) failing message fresh).1.committed ++ message ∷ [])
    × (((with_retry calm (pos 3) failing message fresh).0 ≡ ok tt)
        ⊎ (((worker calm failing message fresh).dead_letters
              ≡ (with_retry calm (pos 3) failing message fresh).1.dead_letters ++ message ∷ [])
            ⊎ ((false ≡ false)
                × ((worker calm failing message fresh).dead_letters
                    ≡ (with_retry calm (pos 3) failing message fresh).1.dead_letters))))
worker-committed_example = worker-committed calm failing message fresh (λ n. refl)
