-- ===== src/Postgres/Outcome.antt =====
-- What a statement and a transaction leave behind.
use distributed_payment_mana.Prelude.{◌≡◌, arith}
use distributed_payment_mana.Exec.{Exec, Result, ok, err}
use distributed_payment_mana.Postgres.{
  Env, World, DbError, IsoLevel, ticked, statement, in_transaction, now, new_uuid, Time, Uuid,
}

module _ {S Msg Task : Type 0} where
  -- The webhooks and the goroutines are those found.
  abbrev pub Quiet : World S Msg Task → World S Msg Task → Type 0
  Quiet w v = (v.sent ≡ w.sent) × (v.tasks ≡ w.tasks)

module _ {S Msg Task C A : Type 0} (env : Env) (q : S → Result (DbError C) (A × S)) where
  pub statement-Quiet : (w : World S Msg Task) → Quiet w (statement env q w).1
  unfolding statement
  statement-Quiet w = ground arith

  pub statement_error :
      (w : World S Msg Task) {e : DbError C}
      → (statement env q w).0 ≡ err e
      → (statement env q w).1.store ≡ w.store
  unfolding statement
  statement_error w h = ground arith

  -- A statement that succeeds has done what its text says.
  pub statement_ok :
      (w : World S Msg Task) {a : A} {v : World S Msg Task}
      → statement env q w ≡ (ok a, v)
      → (q w.store ≡ ok (a, v.store)) × Quiet w v
  unfolding statement
  statement_ok w h = ground arith

module _ {S Msg Task E A : Type 0} (env : Env) (unreachable : E) (iso : IsoLevel)
    (fn : Exec (World S Msg Task) E A) (w : World S Msg Task) where
  -- A transaction that fails, in its body or at its end, leaves the tables as they were.
  pub in_transaction_error :
      {e : E}
      → (in_transaction env unreachable iso fn w).0 ≡ err e
      → (in_transaction env unreachable iso fn w).1.store ≡ w.store
  unfolding in_transaction
  in_transaction_error h = ground arith

  -- A transaction that succeeds has committed what its body did.
  pub in_transaction_ok :
      {a : A} {v : World S Msg Task}
      → in_transaction env unreachable iso fn w ≡ (ok a, v)
      → (u : World S Msg Task) × (fn (ticked w) ≡ (ok a, u))
        × (v.store ≡ u.store)
        × (v.sent ≡ u.sent)
        × (v.tasks ≡ u.tasks)
  unfolding in_transaction
  in_transaction_ok h = ((fn (ticked w)).1, ground arith, ground arith, ground arith, ground arith)

  pub in_transaction-Quiet :
      ((v : World S Msg Task) → Quiet v (fn v).1)
      → Quiet w (in_transaction env unreachable iso fn w).1
  unfolding in_transaction
  in_transaction-Quiet q = ground (arith, q (ticked w))

-- Reading the clock or an identifier changes only the count of calls.
module _ {S Msg Task E : Type 0} (env : Env) (w : World S Msg Task) where
  pub now_ok :
      {t : Time} {v : World S Msg Task}
      → now {E = E} env w ≡ (ok t, v)
      → (t ≡ env.now w.tick) × (v ≡ ticked w)
  unfolding now
  now_ok h = ground arith

  pub new_uuid_ok :
      {i : Uuid} {v : World S Msg Task}
      → new_uuid {E = E} env w ≡ (ok i, v)
      → (i ≡ env.uuid w.tick) × (v ≡ ticked w)
  unfolding new_uuid
  new_uuid_ok h = ground arith
