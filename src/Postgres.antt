-- ===== src/Postgres.antt =====
-- pkg/postgres: the connection to the database, statements and transactions.
-- The database is Postgres. Its tables are the type `S`; a statement is what its SQL text says it
-- does to them, and it may also fail for a reason that the program cannot see (`env.fault`).
pub mod Outcome
pub mod Session
use distributed_payment_mana.Prelude.{ℕ, ◌+◌, Bool, List, String, if◌then◌else◌}
use distributed_payment_mana.Exec.{Result, ok, err, Exec}

abbrev pub Uuid : Type 0
Uuid = ℕ

-- Microseconds, as a column of the type TIMESTAMPTZ keeps them; the nanoseconds that time.Now() has
-- besides, until a value is read back from the database, are left out.
abbrev pub Time : Type 0
Time = ℕ

-- What the program gets from outside, by the number of the call: the clock, fresh identifiers,
-- and whether the database answers. The last two are the text forms of google/uuid and of a time.
pub record Env : Type 0 where
  pub now : ℕ → Time
  pub uuid : ℕ → Uuid
  pub fault : ℕ → Bool
  pub uuid_string : Uuid → String
  pub format_time : Time → String

-- The state of a service: how many calls to the outside it has made, the tables, the messages it
-- has sent, and the goroutines it has started that have not run yet.
pub record World (S Msg Task : Type 0) : Type 0 where
  pub tick : ℕ
  pub store : S
  pub sent : List Msg
  pub tasks : List Task

-- pgconn.PgError, by the part that the program reads: code 23505 with the name of the constraint.
-- `other` is any other error of the database or of the connection.
pub data DbError (Constraint : Type 0) : Type 0 where
  unique_violation : Constraint → DbError Constraint
  check_violation : DbError Constraint
  foreign_key_violation : DbError Constraint
  other : DbError Constraint

pub data IsoLevel : Type 0 where
  read_committed repeatable_read : IsoLevel

abbrev pub ticked : {S Msg Task : Type 0} → World S Msg Task → World S Msg Task
ticked w = record w { tick = w.tick + 1 }

module _ {S Msg Task E : Type 0} (env : Env) where
  -- time.Now().UTC()
  unfoldable pub now : Exec (World S Msg Task) E Time
  now w = (ok (env.now w.tick), ticked w)

  -- uuid.New()
  unfoldable pub new_uuid : Exec (World S Msg Task) E Uuid
  new_uuid w = (ok (env.uuid w.tick), ticked w)

module _ {S Msg Task C A : Type 0} where
  abbrev pub answer :
      World S Msg Task → Result (DbError C) (A × S) → Result (DbError C) A × World S Msg Task
  answer w (err e) = (err e, w)
  answer w (ok (a, s)) = (ok a, record w { store = s })

module _ {S Msg Task C A : Type 0} (env : Env) where
  -- Executor.Exec, Executor.Query: one statement, which changes all of its rows or none.
  unfoldable pub statement :
      (S → Result (DbError C) (A × S)) → Exec (World S Msg Task) (DbError C) A
  statement q w =
      if env.fault w.tick then (err DbError.other, ticked w) else answer (ticked w) (q w.store)

module _ {S Msg Task E A : Type 0} (env : Env) (unreachable : E) where
  abbrev commit : S → A → World S Msg Task → Result E A × World S Msg Task
  commit before a w =
      if env.fault w.tick
      then (err unreachable, record w { tick = w.tick + 1; store = before })
      else (ok a, record w { tick = w.tick + 1 })

  abbrev finish : S → Result E A × World S Msg Task → Result E A × World S Msg Task
  finish before (err e, w) = (err e, record w { store = before })
  finish before (ok a, w) = commit before a w

  -- (*Postgres).InTransaction: begin, run, roll back on an error, commit. Transactions that touch
  -- the same row run one after the other; the one that would not fails with `unreachable`. A COMMIT
  -- that returns an error is taken as a roll back; pgx leaves it open where the connection is lost.
  unfoldable pub in_transaction :
      IsoLevel → Exec (World S Msg Task) E A → Exec (World S Msg Task) E A
  in_transaction iso fn w =
      if env.fault w.tick then (err unreachable, ticked w) else finish w.store (fn (ticked w))
