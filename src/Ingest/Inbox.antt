-- ===== src/Ingest/Inbox.antt =====
-- services/ingest/repo/inbox/pg_inbox_repo.go and the table `inbox`.
use distributed_payment_mana.Prelude.{
  ℕ, ◌+◌, ℤ, pos, pos_part, leb_ℤ, ltb_ℤ, ltb, leb, count, String, Bool, true, false, none, some,
  List, [], ◌∷◌, ◌++◌, any, all, filter, sort_by, first_n, not, ◌&&◌, ◌==◌, str_eq, if◌then◌else◌,
}
use distributed_payment_mana.Exec.{Result, ok, err, map_err, lift, ◌>>=◌}
use distributed_payment_mana.Postgres.{
  Uuid, DbError, unique_violation, check_violation, now, new_uuid, statement,
}
use distributed_payment_mana.Silvergate.Tables.{update_where}
use distributed_payment_mana.Ingest.ApiClient.{
  Failure, already_exists, no_rows, database, pending, processing, processed, failed, InboxRow,
  Call, Outside,
}

pub data Key : Type 0 where
  inbox_pk idx_inbox_idempotency : Key

abbrev pub is_pending : InboxRow → Bool
is_pending r = elim r.status [
  | pending ↦ true
  | processing ↦ false
  | processed ↦ false
  | failed ↦ false
]

abbrev pub has_id : Uuid → InboxRow → Bool
has_id id r = r.id == id

abbrev pub has_key : String → InboxRow → Bool
has_key key r = str_eq r.idempotency_key key

-- VARCHAR(512), VARCHAR(64); INT
unfoldable pub row_checks : InboxRow → Bool
row_checks r =
    leb (count r.idempotency_key) 512
    && leb (count r.webhook_type) 64
    && leb r.retry_count 2147483647

unfoldable pub add_row : InboxRow → List InboxRow → Result (DbError Key) (List InboxRow)
add_row r rows =
    if not (row_checks r)
    then err check_violation
    else if any (has_id r.id) rows
    then err (unique_violation inbox_pk)
    else if any (has_key r.idempotency_key) rows
    then err (unique_violation idx_inbox_idempotency)
    else ok (rows ++ r ∷ [])

abbrev with_row :
    Result (DbError Key) (List InboxRow) → Result (DbError Key) (Unit {0} × List InboxRow)
with_row (ok rows) = ok (tt, rows)
with_row (err e) = err e

-- One row that a statement changes, and how many rows it is: Exec's command tag.
abbrev pub changed_row :
    Uuid → (InboxRow → InboxRow) → List InboxRow → Result (DbError Key) (Bool × List InboxRow)
changed_row id f rows =
    let after = update_where (has_id id) f rows in
    if all row_checks after then ok (any (has_id id) rows, after) else err check_violation

-- IsPgErrorUniqueViolation
abbrev on_store : DbError Key → Failure
on_store (unique_violation k) = already_exists
on_store e = database

abbrev pub any_failure : DbError Key → Failure
any_failure e = database

abbrev pub some_row : Bool → Result Failure (Unit {0})
some_row found = if found then ok tt else err no_rows

-- The rows that FetchPending takes: the oldest pending ones that no other worker has locked.
unfoldable pub chosen : (Uuid → Bool) → ℕ → List InboxRow → List InboxRow
unfolding filter sort_by first_n
chosen locked n rows = first_n n (
    sort_by (λ a b. ltb a.received_at b.received_at)
      (filter (λ r. not (locked r.id)) (filter is_pending rows)))

abbrev pub claim : InboxRow → InboxRow
claim r = record r { status = processing }

abbrev pub is_among : List InboxRow → InboxRow → Bool
is_among taken r = any (λ m. has_id m.id r) taken

-- MarkFailed on its row: $3 is `max_retries`.
unfoldable pub failed_once : ℤ → String → InboxRow → InboxRow
failed_once max_retries text r = record r {
  retry_count = r.retry_count + 1;
  error_message = some text;
  status = if leb_ℤ max_retries (pos (r.retry_count + 1)) then failed else pending;
}

module _ (out : Outside) where
  -- Store
  unfoldable pub store : String → String → String → Call (Unit {0})
  unfolding row_checks
  store key webhook_type payload = do
    id ← new_uuid out.env
    at ← now out.env
    map_err on_store (
        statement out.env (λ (rows : List InboxRow). with_row (
          add_row
            (record {
              id = id;
              idempotency_key = key;
              webhook_type = webhook_type;
              payload = payload;
              status = pending;
              received_at = at;
              processed_at = none;
              error_message = none;
              retry_count = 0;
            })
            rows)))

  -- FetchPending. The rows come back in no order that the program may rely on. A negative LIMIT is an
  -- error of the database.
  unfoldable pub fetch_pending : ℤ → Call (List InboxRow)
  unfolding chosen any
  fetch_pending limit w =
      map_err any_failure
        (statement out.env (λ (rows : List InboxRow).
          let taken = chosen (out.is_locked w.tick) (pos_part limit) rows in
          if ltb_ℤ limit (pos 0)
          then err DbError.other
          else ok (taken, update_where (is_among taken) claim rows)))
        w

  -- MarkProcessed
  unfoldable pub mark_processed : Uuid → Call (Unit {0})
  unfolding row_checks
  mark_processed id = do
    at ← now out.env
    found ← map_err any_failure (
        statement out.env
          (changed_row id (λ r. record r { status = processed; processed_at = some at })))
    lift (some_row found)

  -- MarkFailed
  unfoldable pub mark_failed : Uuid → String → ℤ → Call (Unit {0})
  unfolding row_checks failed_once
  mark_failed id text max_retries = do
    found ← map_err any_failure (statement out.env (changed_row id (failed_once max_retries text)))
    lift (some_row found)
