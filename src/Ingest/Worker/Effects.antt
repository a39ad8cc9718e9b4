-- ===== src/Ingest/Worker/Effects.antt =====
-- services/ingest/worker/inbox_worker.go: what sending a message on, and a statement on its row, do to the
-- rows of the inbox.
use distributed_payment_mana.Prelude.{
  ℕ, zero, suc, ℤ, pos_part, String, Bool, false, List, [], ◌∷◌, all, filter, not, ◌==◌, str_eq,
  ==_iff, ◌≡◌, refl, ap, ◌∙◌, arith, inl, inr, Bool-cases,
}
use distributed_payment_mana.Exec.{Result, ok, err, attempt, map_err, lift, ◌>>=◌}
use distributed_payment_mana.Exec.Outcome.{>>=-same}
use distributed_payment_mana.Postgres.{Uuid, ticked, statement}
use distributed_payment_mana.Silvergate.Tables.{update_where}
use distributed_payment_mana.Ingest.Dto.{Request, order, dispute}
use distributed_payment_mana.Ingest.ApiClient.{
  Outside, Ingest, Call, Failure, InboxRow, after_attempt, is_unavailable, attempts, do_with_retry,
  send_request, send_order_update, send_dispute_update, post,
}
use distributed_payment_mana.Ingest.Inbox.{has_id, row_checks, changed_row, any_failure}
use distributed_payment_mana.Ingest.Worker.{
  Config, process_order, read, process_dispute, process_message,
}

-- The rows with this identifier; there is one at most.
abbrev pub rows_of : Uuid → Ingest → List InboxRow
rows_of id w = filter (has_id id) w.store

-- A row with another identifier.
abbrev pub differs : Uuid → InboxRow → Bool
differs id r = not (r.id == id)

pub filter-update_where :
    (p : InboxRow → Bool) (f : InboxRow → InboxRow) (id : Uuid) (rows : List InboxRow)
    → ((r : InboxRow) → r.id ≡ id → p r ≡ false)
    → ((r : InboxRow) → (f r).id ≡ r.id)
    → filter (has_id id) (update_where p f rows) ≡ filter (has_id id) rows
unfolding filter update_where
filter-update_where p f id [] h k = refl
filter-update_where p f id (r ∷ rs) h k =
    let rest = filter-update_where p f id rs h k in
    elim (Bool-cases (has_id id r)) [
      | inl same ↦
          let kept = h r ((==_iff r.id id).0 same) in rw (kept, same) (ap (λ x. r ∷ x) rest)
      | inr other ↦ elim (Bool-cases (p r)) [
        | inl hit ↦
            let moved : has_id id (f r) ≡ false = ap (λ n. n == id) (k r) ∙ other in
            rw (hit, moved, other) rest
        | inr miss ↦ rw (miss, other) rest
      ]
    ]

pub send_request_store :
    (out : Outside) (path : String) (req : Request) (w : Ingest)
    → (send_request out path req w).1.store ≡ w.store
unfolding send_request ◌>>=◌ post
send_request_store out path req w = ground arith

pub attempts_store :
    (out : Outside) (n : ℕ) (fn : Call (Unit {0})) (w : Ingest)
    → ((v : Ingest) → (fn v).1.store ≡ v.store)
    → (attempts out n fn w).1.store ≡ w.store
unfolding attempts
attempts_store out zero fn w h = refl
attempts_store out (suc n) fn w h = at n (fn w) (h w) (λ v. attempts_store out n fn v h)
  where
    at :
        (m : ℕ) (q : Result Failure (Unit {0}) × Ingest)
        → q.1.store ≡ w.store
        → ((v : Ingest) → (attempts out m fn v).1.store ≡ v.store)
        → (after_attempt out m (attempts out m fn) q).1.store ≡ w.store
    at m (ok _, v) k rest = k
    at zero (err e, v) k rest = k
    at (suc m) (err e, v) k rest = elim (Bool-cases (is_unavailable e)) [
      | inl again ↦ elim (Bool-cases (out.is_done v.tick)) [
        | inl done ↦ rw (again, done) k
        | inr waits ↦ rw (again, waits) (rest (ticked v) ∙ k)
      ]
      | inr final ↦ rw final k
    ]

-- Sending a message on changes no row.
pub sent_store :
    (out : Outside) (n : ℤ) (path : String) (req : Request) (w : Ingest)
    → (do_with_retry out n (send_request out path req) w).1.store ≡ w.store
unfolding do_with_retry
sent_store out n path req w =
    attempts_store out (pos_part n) (send_request out path req) w (send_request_store out path req)

pub process_order_store :
    (out : Outside) (cfg : Config) (m : InboxRow) (w : Ingest)
    → (process_order out cfg m w).1.store ≡ w.store
unfolding process_order send_order_update
process_order_store out cfg m w =
    >>=-same (λ (x : Ingest). x.store) (lift (read (out.decode_order m.payload))) _ w
      (λ req u.
        >>=-same (λ (x : Ingest). x.store) (attempt (send_order_update out cfg.max_attempts req)) _
          u (λ r v. refl)
        ∙ sent_store out cfg.max_attempts "/internal/updates/orders" (order req) u)

pub process_dispute_store :
    (out : Outside) (cfg : Config) (m : InboxRow) (w : Ingest)
    → (process_dispute out cfg m w).1.store ≡ w.store
unfolding process_dispute send_dispute_update
process_dispute_store out cfg m w =
    >>=-same (λ (x : Ingest). x.store) (lift (read (out.decode_dispute m.payload))) _ w
      (λ req u.
        >>=-same (λ (x : Ingest). x.store) (attempt (send_dispute_update out cfg.max_attempts req))
          _ u (λ r v. refl)
        ∙ sent_store out cfg.max_attempts "/internal/updates/disputes" (dispute req) u)

pub process_message_store :
    (out : Outside) (cfg : Config) (m : InboxRow) (w : Ingest)
    → (process_message out cfg m w).1.store ≡ w.store
unfolding process_message
process_message_store out cfg m w = elim (Bool-cases (str_eq m.webhook_type "order_update")) [
  | inl is_order ↦ rw is_order (process_order_store out cfg m w)
  | inr other ↦ elim (Bool-cases (str_eq m.webhook_type "dispute_update")) [
    | inl is_dispute ↦ rw (other, is_dispute) (process_dispute_store out cfg m w)
    | inr unknown ↦ rw (other, unknown) refl
  ]
]

-- A statement on the row of one message leaves the rows of the others.
pub changed_row_rows :
    (out : Outside) (j id : Uuid) (f : InboxRow → InboxRow) (w : Ingest)
    → (j == id) ≡ false
    → ((r : InboxRow) → (f r).id ≡ r.id)
    → rows_of id (map_err any_failure (statement out.env (changed_row j f)) w).1 ≡ rows_of id w
unfolding statement
changed_row_rows out j id f w h k = elim (Bool-cases (out.env.fault w.tick)) [
  | inl down ↦ rw down refl
  | inr up ↦ elim (Bool-cases (all row_checks (update_where (has_id j) f w.store))) [
    | inl fits ↦ rw (up, fits) (filter-update_where (has_id j) f id w.store other k)
    | inr large ↦ rw (up, large) refl
  ]
]
  where
    other : (r : InboxRow) → r.id ≡ id → has_id j r ≡ false
    other r e = ground arith
