-- ===== src/Messaging/Outcome.antt =====
-- pkg/messaging/middleware.go and pkg/kafka/consumer.go: how often a message is handled, and where it
-- ends up.
use distributed_payment_mana.Prelude.{
  ℕ, zero, suc, ◌+◌, ◌≤◌, ℤ, pos_part, true, false, [], ◌∷◌, ◌++◌, ◌≡◌, refl, ◌⊎◌, inl, inr, arith,
  Bool-cases,
}
use distributed_payment_mana.Exec.{Result, ok, err}
use distributed_payment_mana.Exec.Outcome.{Result-cases}
use distributed_payment_mana.Messaging.{
  Message, Consumer, MessageHandler, Broker, ticked, after_attempt, attempts, with_retry, with_dlq,
  consume, worker,
}

module _ {S E : Type 0} (broker : Broker) (h : MessageHandler S E) (cost : Consumer S → ℕ)
    (once : (m : Message) (c : Consumer S) → cost (h m c).1 ≤ cost c + 1)
    (waits : (c : Consumer S) → cost (ticked c) ≡ cost c) where
  attempts-cost :
      (n : ℕ) (m : Message) (c : Consumer S) → cost (attempts broker n h m c).1 ≤ cost c + n
  unfolding attempts
  attempts-cost zero m c = omega arith
  attempts-cost (suc n) m c = at n (h m c) (once m c) (λ d. attempts-cost n m d)
    where
      at :
          (k : ℕ) (q : Result E (Unit {0}) × Consumer S)
          → cost q.1 ≤ cost c + 1
          → ((d : Consumer S) → cost (attempts broker k h m d).1 ≤ cost d + k)
          → cost (after_attempt broker k (attempts broker k h m) q).1 ≤ cost c + suc k
      at k (ok _, d) e rest = omega (arith, e)
      at zero (err f, d) e rest = omega (arith, e)
      at (suc k) (err f, d) e rest = elim (Bool-cases (broker.is_done d.tick)) [
        | inl done ↦ rw done (omega (arith, e, waits d))
        | inr goes_on ↦ rw goes_on (omega (arith, e, waits d, rest (ticked d)))
      ]

  -- A handler with retries runs at most `max_attempts` times for a message: what grows by at most one
  -- with each run, and not by waiting, grows by at most that.
  pub with_retry-cost :
      (max_attempts : ℤ) (m : Message) (c : Consumer S)
      → cost (with_retry broker max_attempts h m c).1 ≤ cost c + pos_part max_attempts
  unfolding with_retry
  with_retry-cost max_attempts m c = attempts-cost (pos_part max_attempts) m c

-- Where commits are taken, a worker commits every message, and each was handled, or is the last dead
-- letter, or is lost: neither handled nor put aside, since the dead letter topic has not taken it.
pub worker-committed :
    {S E : Type 0} (broker : Broker) (h : MessageHandler S E) (m : Message) (c : Consumer S)
    → ((n : ℕ) → broker.takes_commit n ≡ true)
    → ((worker broker h m c).committed ≡ (with_retry broker (ℤ.pos 3) h m c).1.committed ++ m ∷ [])
      × (((with_retry broker (ℤ.pos 3) h m c).0 ≡ ok tt)
          ⊎ (((worker broker h m c).dead_letters
                ≡ (with_retry broker (ℤ.pos 3) h m c).1.dead_letters ++ m ∷ [])
              ⊎ ((broker.takes_letter (with_retry broker (ℤ.pos 3) h m c).1.tick ≡ false)
                  × ((worker broker h m c).dead_letters
                      ≡ (with_retry broker (ℤ.pos 3) h m c).1.dead_letters))))
unfolding worker consume with_dlq
worker-committed broker h m c takes = elim (Result-cases (with_retry broker (ℤ.pos 3) h m c).0) [
  | inl (a, k) ↦ (rw (k, takes (with_retry broker (ℤ.pos 3) h m c).1.tick) refl, inl k)
  | inr (e, k) ↦
      elim (Bool-cases (broker.takes_letter (with_retry broker (ℤ.pos 3) h m c).1.tick)) [
        | inl taken ↦
            let commits = takes ((with_retry broker (ℤ.pos 3) h m c).1.tick + 1) in
            (rw (k, taken, commits) refl, inr (inl (rw (k, taken, commits) refl)))
        | inr dropped ↦
            let commits = takes ((with_retry broker (ℤ.pos 3) h m c).1.tick + 1) in
            (rw (k, dropped, commits) refl, inr (inr (dropped, rw (k, dropped, commits) refl)))
      ]
]
