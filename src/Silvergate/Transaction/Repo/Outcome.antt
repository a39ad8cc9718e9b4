-- ===== src/Silvergate/Transaction/Repo/Outcome.antt =====
-- What each method of the repository of transactions has done when it succeeds.
use distributed_payment_mana.Prelude.{
  ℤ, pos, leb_ℤ, ◌-ℤ◌, ◌&&◌, some, ◌++◌, [], ◌∷◌, ◌≡◌, arith, if◌then◌else◌, ◌==◌, ◌⊎◌, ◌+◌,
  Bool-cases, Option-cases, inl, inr,
}
use distributed_payment_mana.Exec.{ok, err, ◌>>=◌}
use distributed_payment_mana.Exec.Outcome.{Result-cases}
use distributed_payment_mana.Postgres.{Uuid, Time, Env, statement, now}
use distributed_payment_mana.Postgres.Outcome.{Quiet}
use distributed_payment_mana.Silvergate.Errors.{Error}
use distributed_payment_mana.Silvergate.Transaction.Entity.{
  Status, captured, partially_refunded, status_eq, Transaction, Refund,
}
use distributed_payment_mana.Silvergate.Tables.{
  TransactionRow, RefundRow, put_transactions, put_refunds, update_where, find,
}
use distributed_payment_mana.Silvergate.Runtime.{Gateway}
use distributed_payment_mana.Silvergate.Transaction.Repo.{
  nil_if_empty, insert_row, scan_row, scan_transaction, insert_transaction, update_transactions,
  insert_refund, update_refunds, select_transaction, has_id, create, get_by_id,
  get_by_id_for_update, update_status, compare_and_update_status, update_refund, create_refund,
  update_refund_status, release_refund_amount,
}

abbrev pub set_status : Transaction → TransactionRow → TransactionRow
set_status t r = record r {
  status = t.status;
  idempotency_key = nil_if_empty t.idempotency_key;
  updated_at = t.updated_at;
}

abbrev pub set_refund : Transaction → TransactionRow → TransactionRow
set_refund t r = record r {
  status = t.status;
  refunded_amount = t.refunded_amount;
  updated_at = t.updated_at;
}

abbrev pub refund_row : Refund → RefundRow
refund_row r = record {
  id = r.id;
  transaction_id = r.transaction_id;
  amount = r.amount;
  status = r.status;
  idempotency_key = nil_if_empty r.idempotency_key;
  created_at = r.created_at;
  updated_at = r.updated_at;
}

abbrev pub set_refund_status : Refund → RefundRow → RefundRow
set_refund_status r row = record row { status = r.status; updated_at = r.updated_at }

abbrev pub released : ℤ → Time → TransactionRow → TransactionRow
released amount at r = record r {
  refunded_amount = r.refunded_amount -ℤ amount;
  status = if leb_ℤ (r.refunded_amount -ℤ amount) (pos 0) then captured else partially_refunded;
  updated_at = at;
}

module _ (db : Env) (w : Gateway) {v : Gateway} where
  pub create_ok :
      (t : Transaction) {u : Unit {0}}
      → create db t w ≡ (ok u, v)
      → (put_transactions (w.store.transactions ++ insert_row t ∷ []) w.store ≡ ok v.store)
        × Quiet w v
  unfolding ◌>>=◌ create statement insert_transaction
  create_ok t h = ground arith

  pub get_by_id_ok :
      (id : Uuid) {t : Transaction}
      → get_by_id db id w ≡ (ok t, v)
      → (row : TransactionRow) × (find (has_id id) w.store.transactions ≡ some row)
        × (t ≡ scan_row row)
        × (v.store ≡ w.store)
        × Quiet w v
  unfolding ◌>>=◌ get_by_id statement select_transaction scan_transaction
  get_by_id_ok id h = elim (Option-cases (find (has_id id) w.store.transactions)) [
    | inl e ↦ absurd (ground arith)
    | inr (row, e) ↦ (row, e, ground arith, ground arith, (ground arith, ground arith))
  ]

  pub get_by_id_for_update_ok :
      (id : Uuid) {t : Transaction}
      → get_by_id_for_update db id w ≡ (ok t, v)
      → (row : TransactionRow) × (find (has_id id) w.store.transactions ≡ some row)
        × (t ≡ scan_row row)
        × (v.store ≡ w.store)
        × Quiet w v
  unfolding ◌>>=◌ get_by_id_for_update statement select_transaction scan_transaction
  get_by_id_for_update_ok id h = elim (Option-cases (find (has_id id) w.store.transactions)) [
    | inl e ↦ absurd (ground arith)
    | inr (row, e) ↦ (row, e, ground arith, ground arith, (ground arith, ground arith))
  ]

  pub update_status_ok :
      (t : Transaction) {u : Unit {0}}
      → update_status db t w ≡ (ok u, v)
      → (put_transactions (update_where (has_id t.id) (set_status t) w.store.transactions) w.store
          ≡ ok v.store)
        × Quiet w v
  unfolding ◌>>=◌ update_status statement update_transactions
  update_status_ok t h = ground arith

  pub update_refund_ok :
      (t : Transaction) {u : Unit {0}}
      → update_refund db t w ≡ (ok u, v)
      → (put_transactions (update_where (has_id t.id) (set_refund t) w.store.transactions) w.store
          ≡ ok v.store)
        × Quiet w v
  unfolding ◌>>=◌ update_refund statement update_transactions
  update_refund_ok t h = ground arith

  pub create_refund_ok :
      (r : Refund) {u : Unit {0}}
      → create_refund db r w ≡ (ok u, v)
      → (put_refunds (w.store.refunds ++ refund_row r ∷ []) w.store ≡ ok v.store) × Quiet w v
  unfolding ◌>>=◌ create_refund statement insert_refund
  create_refund_ok r h = ground arith

-- The methods that a goroutine calls outside a transaction: on an error nothing is written.
module _ (db : Env) (w : Gateway) where
  pub compare_and_update_status_cases :
      (id : Uuid) (expected next : Status)
      → let (r, v) = compare_and_update_status db id expected next w in
        ((v.store ≡ w.store)
          ⊎ (put_transactions
                (update_where
                  (λ r. has_id id r && status_eq r.status expected)
                  (λ r. record r { status = next; updated_at = db.now w.tick })
                  w.store.transactions)
                w.store
              ≡ ok v.store))
  unfolding ◌>>=◌ compare_and_update_status statement update_transactions now
  compare_and_update_status_cases id expected next =
      elim (Result-cases (
        put_transactions
          (update_where (λ r. has_id id r && status_eq r.status expected)
            (λ r. record r { status = next; updated_at = db.now w.tick }) w.store.transactions)
          w.store)) [
            | inl (s, e) ↦ elim (Bool-cases (db.fault (w.tick + 1))) [
              | inl f ↦ inl (ground arith)
              | inr f ↦ inr (ground arith)
            ]
            | inr (x, e) ↦ inl (ground arith)
          ]

  pub compare_and_update_status-Quiet :
      (id : Uuid) (expected next : Status)
      → Quiet w (compare_and_update_status db id expected next w).1
  unfolding ◌>>=◌ compare_and_update_status statement update_transactions now
  compare_and_update_status-Quiet id expected next = ground arith

  pub update_refund_status_error :
      (r : Refund) {e : Error}
      → (update_refund_status db r w).0 ≡ err e
      → (update_refund_status db r w).1.store ≡ w.store
  unfolding ◌>>=◌ update_refund_status statement update_refunds
  update_refund_status_error r h = ground arith

  pub update_refund_status_ok :
      (r : Refund) {u : Unit {0}}
      → (update_refund_status db r w).0 ≡ ok u
      → put_refunds
          (update_where (λ (row : RefundRow). row.id == r.id) (set_refund_status r) w.store.refunds)
          w.store
        ≡ ok (update_refund_status db r w).1.store
  unfolding ◌>>=◌ update_refund_status statement update_refunds
  update_refund_status_ok r h = ground arith

  pub update_refund_status-Quiet : (r : Refund) → Quiet w (update_refund_status db r w).1
  unfolding ◌>>=◌ update_refund_status statement update_refunds
  update_refund_status-Quiet r = ground arith

  pub release_refund_amount_error :
      (id : Uuid) (amount : ℤ) {e : Error}
      → (release_refund_amount db id amount w).0 ≡ err e
      → (release_refund_amount db id amount w).1.store ≡ w.store
  unfolding ◌>>=◌ release_refund_amount statement update_transactions now
  release_refund_amount_error id amount h = ground arith

  pub release_refund_amount_ok :
      (id : Uuid) (amount : ℤ) {u : Unit {0}}
      → (release_refund_amount db id amount w).0 ≡ ok u
      → put_transactions
          (update_where (has_id id) (released amount (db.now w.tick)) w.store.transactions)
          w.store
        ≡ ok (release_refund_amount db id amount w).1.store
  unfolding ◌>>=◌ release_refund_amount statement update_transactions now
  release_refund_amount_ok id amount h = ground arith

  pub release_refund_amount-Quiet :
      (id : Uuid) (amount : ℤ) → Quiet w (release_refund_amount db id amount w).1
  unfolding ◌>>=◌ release_refund_amount statement update_transactions now
  release_refund_amount-Quiet id amount = ground arith
