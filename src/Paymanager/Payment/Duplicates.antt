-- ===== src/Paymanager/Payment/Duplicates.antt =====
-- A refund webhook that is delivered again, as services/paymanager/internal/payment/service.go and
-- the unique index of internal/eventstore take it.
use distributed_payment_mana.Prelude.{
  ◌<+>◌, ℤ, String, Bool, true, some, List, [], ◌∷◌, ◌++◌, any, ◌&&◌, ◌==◌, str_eq, ◌+i64◌, ◌+◌,
  if◌then◌else◌, ◌≡◌, refl, sym, ap, ◌∙◌, arith, inl, inr, Bool-cases,
}
use distributed_payment_mana.Exec.{Result, ok, err, ◌>>=◌}
use distributed_payment_mana.Exec.Outcome.{Result-cases}
use distributed_payment_mana.Postgres.{Uuid, Time, ticked, statement, in_transaction, now, new_uuid}
use distributed_payment_mana.Silvergate.Tables.{find, clashes}
use distributed_payment_mana.Paymanager.Payment.Entity.{
  Status, Payment, CaptureWebhook, Failure, database,
}
use distributed_payment_mana.Paymanager.Payment.Tables.{
  PaymentRow, EventRow, events_clash_key, put_events, put_payments,
}
use distributed_payment_mana.Paymanager.Payment.Repo.{
  Manager, is_provided, payment_of, get_payment_by_provider_tx_id, update_payment_refund,
  update_payments, create_event,
}
use distributed_payment_mana.Paymanager.Payment.Service.{
  Outside, process_capture_webhook, process_in_tx, process_refunded, status_after,
}

-- An event of the payment with this key.
abbrev pub is_event : Uuid → String → EventRow → Bool
is_event id key r =
    str_eq r.aggregate_type "payment" && r.aggregate_id == id && str_eq r.idempotency_key key

-- The key of a refund webhook.
abbrev pub refund_key : CaptureWebhook → String
refund_key hook =
    "webhook_" <+> hook.transaction_id <+> "_" <+> hook.event <+> "_" <+> hook.refund_id

module _ {A : Type 0} (clash : A → A → Bool) (new : A) where
  any-append : (p : A → Bool) (xs : List A) → p new ≡ true → any p (xs ++ new ∷ []) ≡ true
  unfolding any
  any-append p [] h = ground arith
  any-append p (x ∷ xs) h = ground (arith, any-append p xs h)

  clashes-append :
      (xs : List A) → any (λ x. clash x new) xs ≡ true → clashes clash (xs ++ new ∷ []) ≡ true
  unfolding any clashes
  clashes-append [] h = absurd (ground arith)
  clashes-append (x ∷ xs) h = elim (Bool-cases (clash x new)) [
    | inl this ↦ ground (arith, any-append (clash x) xs this)
    | inr other ↦ ground (arith, clashes-append xs)
  ]

create_event_again :
    (out : Outside) (id : Uuid) (type key : String) (at : Time) (w : Manager)
    → any (is_event id key) w.store.events ≡ true
    → (e : Failure) × ((create_event out.env "payment" id type key at w).0 ≡ err e)
unfolding create_event ◌>>=◌ statement put_events new_uuid
create_event_again out id type key at w h =
    let new : EventRow = record {
      id = out.env.uuid w.tick;
      aggregate_type = "payment";
      aggregate_id = id;
      event_type = type;
      idempotency_key = key;
      created_at = at;
    } in
    let clash = clashes-append events_clash_key new w.store.events h in
    elim (Result-cases (create_event out.env "payment" id type key at w).0) [
      | inl (u, stored) ↦ absurd (ground arith)
      | inr failed ↦ failed
    ]

update_payment_refund-events :
    (out : Outside) (id : Uuid) (s : Status) (n : ℤ) (w : Manager)
    → (update_payment_refund out.env id s n w).1.store.events ≡ w.store.events
unfolding update_payment_refund ◌>>=◌ statement update_payments put_payments now
update_payment_refund-events out id s n w = ground arith

process_refunded_again :
    (out : Outside) (hook : CaptureWebhook) (p : Payment) (w : Manager)
    → any (is_event p.id (refund_key hook)) w.store.events ≡ true
    → (e : Failure) × ((process_refunded out hook p w).0 ≡ err e)
unfolding process_refunded ◌>>=◌ now
process_refunded_again out hook p w h = at (update_payment_refund out.env p.id next total w) refl
  where
    total : ℤ
    total = p.refunded_amount +i64 hook.amount

    next : Status
    next = status_after total p

    at :
        (q : Result Failure (Unit {0}) × Manager)
        → update_payment_refund out.env p.id next total w ≡ q
        → (e : Failure) × ((process_refunded out hook p w).0 ≡ err e)
    at (err e, v) q = (e, rw q refl)
    at (ok _, v) q =
        let kept : v.store.events ≡ w.store.events =
          ap (λ (x : Result Failure (Unit {0}) × Manager). x.1.store.events) (sym q)
          ∙ update_payment_refund-events out p.id next total w in
        let (e, k) =
          create_event_again out p.id hook.event (refund_key hook) (out.env.now v.tick) (ticked v)
            (ap (any (is_event p.id (refund_key hook))) kept ∙ h) in
        (e, rw q k)

found_ok :
    (out : Outside) (hook : CaptureWebhook) (w : Manager) (row : PaymentRow)
    → find (is_provided hook.transaction_id) w.store.payments ≡ some row
    → get_payment_by_provider_tx_id out.env hook.transaction_id (ticked w) ≡ (
        if out.env.fault (w.tick + 1)
        then (err database, ticked (ticked w))
        else (ok (payment_of row), ticked (ticked w)))
unfolding get_payment_by_provider_tx_id ◌>>=◌ statement
found_ok out hook w row h = elim (Bool-cases (out.env.fault (w.tick + 1))) [
  | inl down ↦ rw down refl
  | inr up ↦ rw (up, h) refl
]

in_tx_again :
    (out : Outside) (hook : CaptureWebhook) (w : Manager) (row : PaymentRow)
    → str_eq hook.event "transaction.refunded" ≡ true
    → find (is_provided hook.transaction_id) w.store.payments ≡ some row
    → any (is_event row.id (refund_key hook)) w.store.events ≡ true
    → (e : Failure) × ((process_in_tx out hook (ticked w)).0 ≡ err e)
unfolding process_in_tx ◌>>=◌ payment_of
in_tx_again out hook w row refund found h = elim (Bool-cases (out.env.fault (w.tick + 1))) [
  | inl down ↦ (database, rw (found_ok out hook w row found, down) refl)
  | inr up ↦
      let (e, k) = process_refunded_again out hook (payment_of row) (ticked (ticked w)) h in
      (e, rw (found_ok out hook w row found, up, refund) k)
]

-- A refund webhook whose event is stored already for the payment that it names is always an error,
-- and leaves payments and events as they were: the amount is not added a second time.
pub process_capture_webhook_again :
    (out : Outside) (hook : CaptureWebhook) (w : Manager) (row : PaymentRow)
    → str_eq hook.event "transaction.refunded" ≡ true
    → find (is_provided hook.transaction_id) w.store.payments ≡ some row
    → any (is_event row.id (refund_key hook)) w.store.events ≡ true
    → (e : Failure) × ((process_capture_webhook out hook w).0 ≡ err e)
      × ((process_capture_webhook out hook w).1.store ≡ w.store)
unfolding process_capture_webhook in_transaction
process_capture_webhook_again out hook w row refund found h =
    elim (Bool-cases (out.env.fault w.tick)) [
      | inl down ↦ (database, ground arith, ground arith)
      | inr up ↦
          let (e, q) = in_tx_again out hook w row refund found h in (e, ground arith, ground arith)
    ]
