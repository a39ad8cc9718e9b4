-- ===== src/Postgres/Session.antt =====
-- pkg/postgres/postgres.go: InTransaction for a body that goes on after a statement has failed.
-- Postgres then refuses every further statement of the transaction, and answers its COMMIT by a
-- rollback, which pgx returns as an error. A body that returns at its first failed statement meets
-- neither: `in_transaction` of Postgres is enough there.
pub mod Outcome
use distributed_payment_mana.Prelude.{Bool, if◌then◌else◌}
use distributed_payment_mana.Exec.{Result, ok, err, Exec}
use distributed_payment_mana.Postgres.{Env, World, DbError, IsoLevel, ticked}

-- What the server says of the connection: outside a transaction, inside one, inside one that failed.
pub data TxStatus : Type 0 where
  idle active failed : TxStatus

pub record Session (S : Type 0) : Type 0 where
  pub tables : S
  pub status : TxStatus

abbrev pub after_error : TxStatus → TxStatus
after_error idle = idle
after_error active = failed
after_error failed = failed

abbrev pub broken : {S : Type 0} → Session S → Session S
broken s = record s { status = after_error s.status }

module _ {S Msg Task C A : Type 0} where
  abbrev answer :
      World (Session S) Msg Task
      → Session S
      → Result (DbError C) (A × S)
      → Result (DbError C) A × World (Session S) Msg Task
  answer w s (err e) = (err e, record w { store = broken s })
  answer w s (ok (a, t)) = (ok a, record w { store = record s { tables = t } })

abbrev refuse_failed :
    {S C A : Type 0}
    → TxStatus
    → (S → Result (DbError C) (A × S))
    → (S → Result (DbError C) (A × S))
refuse_failed idle q = q
refuse_failed active q = q
refuse_failed failed q = λ s. err DbError.other

module _ {S Msg Task C A : Type 0} (env : Env) where
  -- Executor.Exec, Executor.Query
  unfoldable pub statement :
      (S → Result (DbError C) (A × S)) → Exec (World (Session S) Msg Task) (DbError C) A
  statement q w =
      if env.fault w.tick
      then (err DbError.other, record (ticked w) { store = broken w.store })
      else answer (ticked w) w.store (refuse_failed w.store.status q w.store.tables)

module _ {S Msg Task : Type 0} where
  abbrev rolled_back : S → World (Session S) Msg Task → World (Session S) Msg Task
  rolled_back before w = record w { store = record { tables = before; status = idle } }

  abbrev pub begun : World (Session S) Msg Task → World (Session S) Msg Task
  begun w = record (ticked w) { store = record { tables = w.store.tables; status = active } }

module _ {S Msg Task E A : Type 0} (env : Env) (unreachable : E) where
  -- Commit, on a transaction that has failed and on one that has not.
  abbrev commit :
      S → TxStatus → A → World (Session S) Msg Task → Result E A × World (Session S) Msg Task
  commit before failed a w = (err unreachable, rolled_back before (ticked w))
  commit before s a w =
      if env.fault w.tick
      then (err unreachable, rolled_back before (ticked w))
      else (ok a, record (ticked w) { store = record { tables = w.store.tables; status = idle } })

  abbrev finish :
      S → Result E A × World (Session S) Msg Task → Result E A × World (Session S) Msg Task
  finish before (err e, w) = (err e, rolled_back before w)
  finish before (ok a, w) = commit before w.store.status a w

  -- (*Postgres).InTransaction on a connection that is idle.
  unfoldable pub in_transaction :
      IsoLevel → Exec (World (Session S) Msg Task) E A → Exec (World (Session S) Msg Task) E A
  in_transaction iso fn w =
      if env.fault w.tick then (err unreachable, ticked w) else finish w.store.tables (fn (begun w))
