-- ===== src/Ingest/Worker/Rows.antt =====
-- services/ingest/worker/inbox_worker.go: the rows of the inbox that a poll does not touch.
use distributed_payment_mana.Prelude.{
  ℕ, pos, pos_part, ltb_ℤ, Bool, true, false, List, some, [], ◌∷◌, any, all, filter, filter_kept,
  sort_by-all, first_n-all, not, ◌&&◌, if◌then◌else◌, ◌≡◌, refl, ap, ◌∙◌, arith, inl, inr,
  Bool-cases,
}
use distributed_payment_mana.Exec.{Result, ok, err, map_err, ◌>>=◌}
use distributed_payment_mana.Exec.Outcome.{>>=-same}
use distributed_payment_mana.Postgres.{Uuid, ticked, now, statement}
use distributed_payment_mana.Ingest.ApiClient.{Outside, Ingest, Failure, InboxRow, processed}
use distributed_payment_mana.Ingest.Inbox.{
  is_pending, has_id, is_among, claim, failed_once, changed_row, any_failure, chosen, fetch_pending,
  mark_processed, mark_failed,
}
use distributed_payment_mana.Ingest.Worker.{
  Config, is_permanent_error, process_message, mark, handle, handle_all, poll,
}
use distributed_payment_mana.Ingest.Worker.Effects.{
  rows_of, differs, filter-update_where, process_message_store, changed_row_rows,
}

mark_rows :
    (out : Outside) (cfg : Config) (m : InboxRow) (r : Result Failure (Unit {0})) (id : Uuid)
    (w : Ingest)
    → differs id m ≡ true
    → rows_of id (mark out cfg m r w).1 ≡ rows_of id w
unfolding mark mark_processed mark_failed failed_once ◌>>=◌ now
mark_rows out cfg m (ok _) id w h =
    >>=-same (rows_of id)
      (map_err any_failure (
        statement out.env (
          changed_row m.id
            (λ r. record r { status = processed; processed_at = some (out.env.now w.tick) }))))
      _ (ticked w) (λ found u. refl)
    ∙ changed_row_rows out m.id id _ (ticked w) (ground arith) (λ r. refl)
mark_rows out cfg m (err e) id w h =
    >>=-same (rows_of id)
      (map_err any_failure (
        statement out.env (
          changed_row m.id (
            failed_once (if is_permanent_error e then pos 0 else cfg.max_retries)
              (out.error_text e)))))
      _ w (λ found u. refl)
    ∙ changed_row_rows out m.id id _ w (ground arith) (λ r. refl)

handle_rows :
    (out : Outside) (cfg : Config) (m : InboxRow) (id : Uuid) (w : Ingest)
    → differs id m ≡ true
    → rows_of id (handle out cfg m w).1 ≡ rows_of id w
unfolding handle ◌>>=◌
handle_rows out cfg m id w h =
    mark_rows out cfg m (process_message out cfg m w).0 id (process_message out cfg m w).1 h
    ∙ ap (filter (has_id id)) (process_message_store out cfg m w)

handle_all_rows :
    (out : Outside) (cfg : Config) (ms : List InboxRow) (id : Uuid) (w : Ingest)
    → all (differs id) ms ≡ true
    → rows_of id (handle_all out cfg ms w).1 ≡ rows_of id w
unfolding handle_all all
handle_all_rows out cfg [] id w h = refl
handle_all_rows out cfg (m ∷ ms) id w h =
    >>=-same (rows_of id) (handle out cfg m) (λ _. handle_all out cfg ms) w
      (λ a u. handle_all_rows out cfg ms id u (ground arith))
    ∙ handle_rows out cfg m id w (ground arith)

-- Only pending rows are taken.
pending_differ :
    (id : Uuid) (rows : List InboxRow)
    → any (λ r. has_id id r && is_pending r) rows ≡ false
    → all (differs id) (filter is_pending rows) ≡ true
unfolding any all filter
pending_differ id [] h = refl
pending_differ id (r ∷ rs) h = ground (arith, pending_differ id rs)

chosen_differ :
    (locked : Uuid → Bool) (n : ℕ) (id : Uuid) (rows : List InboxRow)
    → any (λ r. has_id id r && is_pending r) rows ≡ false
    → all (differs id) (chosen locked n rows) ≡ true
unfolding chosen
chosen_differ locked n id rows h = first_n-all (differs id) n _ (
    sort_by-all (differs id) _ _ (
      filter_kept (differs id) (λ r. not (locked r.id)) (filter is_pending rows)
        (pending_differ id rows h)))

not_among :
    (id : Uuid) (taken : List InboxRow) (r : InboxRow)
    → all (differs id) taken ≡ true
    → r.id ≡ id
    → is_among taken r ≡ false
unfolding all any
not_among id [] r h e = refl
not_among id (m ∷ ms) r h e = let rest = not_among id ms r in ground arith

-- A row that is not pending is the same after a poll, whatever the messages, the answers and the
-- faults are: what was processed or given up stays so, and a row in processing is not taken again.
pub poll_rows :
    (out : Outside) (cfg : Config) (id : Uuid) (w : Ingest)
    → any (λ r. has_id id r && is_pending r) w.store ≡ false
    → rows_of id (poll out cfg w).1 ≡ rows_of id w
unfolding poll ◌>>=◌ fetch_pending statement
poll_rows out cfg id w h = elim (Bool-cases (out.env.fault w.tick)) [
  | inl down ↦ rw down refl
  | inr up ↦ elim (Bool-cases (ltb_ℤ cfg.batch_size (pos 0))) [
    | inl negative ↦ rw (up, negative) refl
    | inr fits ↦
        rw (up, fits)
          (handle_all_rows out cfg taken id _ taken_differ
            ∙ filter-update_where (is_among taken) claim id w.store
                (λ r e. not_among id taken r taken_differ e) (λ r. refl))
  ]
]
  where
    taken : List InboxRow
    taken = chosen (out.is_locked w.tick) (pos_part cfg.batch_size) w.store

    taken_differ : all (differs id) taken ≡ true
    taken_differ = chosen_differ (out.is_locked w.tick) (pos_part cfg.batch_size) id w.store h
