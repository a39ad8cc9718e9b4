-- ===== src/Postgres/Session/Outcome.antt =====
-- What a transaction leaves, of a body that may go on after a failed statement.
use distributed_payment_mana.Prelude.{◌≡◌, false, arith}
use distributed_payment_mana.Exec.{Exec, ok, err}
use distributed_payment_mana.Postgres.{Env, World, IsoLevel}
use distributed_payment_mana.Postgres.Session.{Session, idle, failed, in_transaction, begun}

module _ {S Msg Task E A : Type 0} (env : Env) (unreachable : E) (iso : IsoLevel)
    (fn : Exec (World (Session S) Msg Task) E A) (w : World (Session S) Msg Task) where
  -- A transaction that fails, in its body or at its end, leaves the tables as they were.
  pub in_transaction_error :
      {e : E}
      → (in_transaction env unreachable iso fn w).0 ≡ err e
      → (in_transaction env unreachable iso fn w).1.store.tables ≡ w.store.tables
  unfolding in_transaction
  in_transaction_error h = ground arith

  -- A transaction whose body succeeds after a failed statement fails.
  pub in_transaction_failed :
      {a : A} {v : World (Session S) Msg Task}
      → fn (begun w) ≡ (ok a, v)
      → v.store.status ≡ failed
      → (in_transaction env unreachable iso fn w).0 ≡ err unreachable
  unfolding in_transaction
  in_transaction_failed h k = ground arith

  -- A transaction that succeeds has committed what its body did, and no statement of it failed last.
  pub in_transaction_ok :
      {a : A} {v : World (Session S) Msg Task}
      → in_transaction env unreachable iso fn w ≡ (ok a, v)
      → (u : World (Session S) Msg Task) × (fn (begun w) ≡ (ok a, u))
        × (v.store ≡ record { tables = u.store.tables; status = idle })
        × (v.sent ≡ u.sent)
        × (v.tasks ≡ u.tasks)
  unfolding in_transaction
  in_transaction_ok h = ((fn (begun w)).1, ground arith, ground arith, ground arith, ground arith)

  -- What was sent inside a transaction stays sent, however it ends.
  pub in_transaction_sent :
      env.fault w.tick ≡ false
      → (in_transaction env unreachable iso fn w).1.sent ≡ (fn (begun w)).1.sent
  unfolding in_transaction
  in_transaction_sent h = ground arith
