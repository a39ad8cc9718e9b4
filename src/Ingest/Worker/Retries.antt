-- ===== src/Ingest/Worker/Retries.antt =====
-- services/ingest/worker/inbox_worker.go: a message that cannot be sent on is given up in the end.
use distributed_payment_mana.Prelude.{
  ℕ, zero, suc, ◌+◌, ◌≤◌, pos, ltb_ℤ, count, true, false, [], ◌∷◌, any, all, filter, sort_by,
  insert_by, first_n, ◌==◌, str_eq, ◌≡◌, refl, ◌∙◌, arith,
}
use distributed_payment_mana.Exec.{ok, ◌>>=◌}
use distributed_payment_mana.Postgres.{statement, ticked}
use distributed_payment_mana.Silvergate.Tables.{update_where}
use distributed_payment_mana.Ingest.ApiClient.{
  Outside, Ingest, unknown_type, InboxRow, pending, failed,
}
use distributed_payment_mana.Ingest.Inbox.{
  claim, chosen, fetch_pending, row_checks, failed_once, mark_failed,
}
use distributed_payment_mana.Ingest.Worker.{
  Config, is_permanent_error, mark, handle, handle_all, poll,
}
use distributed_payment_mana.Ingest.Worker.Forwarding.{process_message_unknown}

-- The inbox after so many polls.
unfoldable pub polls : Outside → Config → ℕ → Ingest → Ingest
polls out cfg zero w = w
polls out cfg (suc n) w = polls out cfg n (poll out cfg w).1

self_id : (n : ℕ) → (n == n) ≡ true
self_id n = ground arith

first_n_none : (n : ℕ) → first_n {A = InboxRow} n [] ≡ []
unfolding first_n
first_n_none zero = refl
first_n_none (suc n) = refl

not_negative : (n : ℕ) → ltb_ℤ (pos (suc n)) (pos 0) ≡ false
not_negative n = ground arith

module _ (out : Outside) (cfg : Config) (up : (t : ℕ) → out.env.fault t ≡ false)
    (free : (t id : ℕ) → out.is_locked t id ≡ false) (b : ℕ)
    (reads : cfg.batch_size ≡ pos (suc b)) where
  fetch_one :
      (r : InboxRow) (w : Ingest)
      → r.status ≡ pending
      → w.store ≡ r ∷ []
      → fetch_pending out cfg.batch_size w
        ≡ (ok (r ∷ []), record (ticked w) { store = claim r ∷ [] })
  unfolding fetch_pending statement chosen filter sort_by insert_by first_n update_where any
  fetch_one r w h k =
      rw (up w.tick, reads, not_negative b, k, h, free w.tick r.id, self_id r.id, first_n_none b)
        refl

  -- The row of a message of no known type after one more poll.
  abbrev counted : InboxRow → InboxRow
  counted r = failed_once cfg.max_retries (out.error_text unknown_type) r

  poll_unknown :
      (r : InboxRow) (w : Ingest)
      → r.status ≡ pending
      → w.store ≡ r ∷ []
      → str_eq r.webhook_type "order_update" ≡ false
      → str_eq r.webhook_type "dispute_update" ≡ false
      → row_checks (counted r) ≡ true
      → ((poll out cfg w).1.store ≡ counted r ∷ []) × ((poll out cfg w).1.sent ≡ w.sent)
  unfolding poll ◌>>=◌ handle_all handle mark mark_failed is_permanent_error statement update_where
      all failed_once
  poll_unknown r w h k o d fits =
      rw
        (
          fetch_one r w h k,
          process_message_unknown out cfg r (record (ticked w) { store = claim r ∷ [] }) o d,
          up (w.tick + 1),
          self_id r.id,
          fits,
        )
        (refl, refl)

  module _ (max : ℕ) (most : cfg.max_retries ≡ pos max) (bounded : max ≤ 2147483647) where
    counted_checks :
        (n : ℕ) (r : InboxRow)
        → row_checks r ≡ true
        → r.retry_count + suc n ≡ max
        → row_checks (counted r) ≡ true
    unfolding row_checks failed_once
    counted_checks n r h k = ground arith

    counted_last : (r : InboxRow) → r.retry_count + 1 ≡ max → (counted r).status ≡ failed
    unfolding failed_once
    counted_last r k = rw most (ground (arith, k))

    counted_again :
        (n : ℕ) (r : InboxRow) → r.retry_count + suc (suc n) ≡ max → (counted r).status ≡ pending
    unfolding failed_once
    counted_again n r k = rw most (ground (arith, k))

    -- An inbox of one pending message that is neither an order update nor a dispute update, with a
    -- database that answers, no other worker, a batch size above 0 and a maximum that INT holds: the
    -- poll that brings its number of failures up to the maximum gives it up, and nothing has been sent.
    pub polls_give_up :
        (n : ℕ) (r : InboxRow) (w : Ingest)
        → r.status ≡ pending
        → w.store ≡ r ∷ []
        → str_eq r.webhook_type "order_update" ≡ false
        → str_eq r.webhook_type "dispute_update" ≡ false
        → row_checks r ≡ true
        → r.retry_count + suc n ≡ max
        → (s : InboxRow) × ((polls out cfg (suc n) w).store ≡ s ∷ [])
          × (s.id ≡ r.id)
          × (s.status ≡ failed)
          × (s.retry_count ≡ max)
          × ((polls out cfg (suc n) w).sent ≡ w.sent)
    unfolding polls failed_once
    polls_give_up zero r w h k o d fits count =
        let (stored, sent) = poll_unknown r w h k o d (counted_checks zero r fits count) in
        (counted r, stored, refl, counted_last r count, count, sent)
    polls_give_up (suc n) r w h k o d fits count =
        let ok_row = counted_checks (suc n) r fits count in
        let (stored, sent) = poll_unknown r w h k o d ok_row in
        let (s, a, e, f, g, x) =
          polls_give_up n (counted r) (poll out cfg w).1 (counted_again n r count) stored o d ok_row
            (omega (arith, count)) in
        (s, a, e, f, g, x ∙ sent)
