-- ===== src/Paymanager/Order/Service/Duplicates.antt =====
-- A webhook that is delivered again, and a capture whose key is used again, as
-- services/paymanager/internal/order/service.go takes them: writeEvent lets the unique index of
-- events pass, but the statement has failed, and its transaction with it.
use distributed_payment_mana.Prelude.{
  String, true, false, any, ◌≡◌, ◌≢◌, refl, sym, ap, ◌∙◌, arith, inl, inr, ◌⊎◌, Bool-cases,
}
use distributed_payment_mana.Exec.{Result, ok, err, ◌>>=◌}
use distributed_payment_mana.Exec.Outcome.{Result-cases, >>=-then, lift-ok}
use distributed_payment_mana.Postgres.{now}
use distributed_payment_mana.Postgres.Session.{Session, active, failed, in_transaction, begun}
use distributed_payment_mana.Paymanager.Order.Entity.{
  of_update, of_capture, of_response, created, status_eq, OrderUpdate, CaptureRequest,
  CaptureResponse, Failure, database,
}
use distributed_payment_mana.Paymanager.Order.Tables.{Store, Orders, ProviderCall}
use distributed_payment_mana.Paymanager.Order.Service.{
  Outside, CaptureResult, result_kind, response_of, write_event, change_order, apply_update,
  process_order_update, ask_capture, apply_capture, recorded, capture_payment, capturable, handled,
}
use distributed_payment_mana.Paymanager.Order.Service.Effects.{
  is_order_event, write_event_failed, write_event_again, write_event-error, get_order_by_id_store,
  change_order_store, change_order-error,
}

pub apply_update_again :
    (out : Outside) (u : OrderUpdate) (w : Orders)
    → status_eq u.status created ≡ false
    → w.store.status ≡ active
    → any (is_order_event u.order_id u.provider_event_id) w.store.tables.events ≡ true
    → ((e : Failure) × ((apply_update out u w).0 ≡ err e) × (handled (err e) ≡ false))
      ⊎ (((apply_update out u w).0 ≡ ok tt) × ((apply_update out u w).1.store.status ≡ failed))
unfolding apply_update ◌>>=◌ handled
apply_update_again out u w h act k = at (change_order out u w) refl
  where
    written : Orders → Result Failure (Unit {0}) × Orders
    written v = write_event out u.order_id "webhook_received" u.provider_event_id (of_update u) v

    ends :
        (q : Result Failure (Unit {0}) × Orders) (v : Orders)
        → written v ≡ q
        → q.1.store.status ≡ failed
        → ((e : Failure) × ((written v).0 ≡ err e) × (handled (err e) ≡ false))
          ⊎ (((written v).0 ≡ ok tt) × ((written v).1.store.status ≡ failed))
    ends (ok a, x) v q f = inr (ground arith)
    ends (err e, x) v q f =
        let same =
          write_event-error out u.order_id "webhook_received" u.provider_event_id (of_update u) v x
            e q in
        inl (e, ground arith, ground arith)

    at :
        (q : Result Failure (Unit {0}) × Orders)
        → change_order out u w ≡ q
        → ((e : Failure) × ((apply_update out u w).0 ≡ err e) × (handled (err e) ≡ false))
          ⊎ (((apply_update out u w).0 ≡ ok tt) × ((apply_update out u w).1.store.status ≡ failed))
    at (err e, v) q = inl (e, rw (h, q) refl, change_order-error out u w v e q)
    at (ok _, v) q =
        let (same, events) = change_order_store out u w v q in
        let last =
          write_event_again out u.order_id "webhook_received" u.provider_event_id (of_update u) v
            (same ∙ act) (ap (any (is_order_event u.order_id u.provider_event_id)) events ∙ k) in
        rw (h, q) (ends (written v) v refl last)

-- An update of an order, not its creation, whose event is stored already is always an error that the
-- handler does not take for a duplicate, whatever the order is and whatever fails, and leaves the
-- tables as they were.
pub process_order_update_again :
    (out : Outside) (u : OrderUpdate) (w : Orders)
    → status_eq u.status created ≡ false
    → any (is_order_event u.order_id u.provider_event_id) w.store.tables.events ≡ true
    → (e : Failure) × ((process_order_update out u w).0 ≡ err e)
      × (handled (err e) ≡ false)
      × ((process_order_update out u w).1.store.tables ≡ w.store.tables)
unfolding process_order_update ◌>>=◌ in_transaction handled
process_order_update_again out u w h k = elim (Bool-cases (out.env.fault w.tick)) [
  | inl down ↦ (database, ground arith, ground arith, ground arith)
  | inr up ↦ elim (apply_update_again out u (begun w) h refl k) [
    | inl (e, l, dead) ↦ (e, ground arith, ground arith, ground arith)
    | inr (l, dead) ↦ (database, ground arith, ground arith, ground arith)
  ]
]

ask_capture_store :
    (out : Outside) (call : ProviderCall) (w v : Orders) (r : CaptureResult)
    → ask_capture out call w ≡ (ok r, v)
    → v.store ≡ w.store
unfolding ask_capture
ask_capture_store out call w v r h = ground arith

-- The two events of a capture are not both written when the first one is stored already.
apply_capture_again :
    (out : Outside) (id : String) (req : CaptureRequest) (w v : Orders) (r : CaptureResponse)
    → w.store.status ≡ active
    → any (is_order_event id req.idempotency_key) w.store.tables.events ≡ true
    → apply_capture out id req w ≢ (ok r, v)
unfolding apply_capture recorded now
apply_capture_again out id req w v r act k h = >>=-then _ _ w h λ o u1 e1 k1.
    >>=-then _ _ u1 k1 λ a u2 e2 k2. >>=-then _ _ u2 k2 λ result u3 e3 k3.
      >>=-then _ _ u3 k3 λ at u4 e4 k4. >>=-then _ _ u4 k4 λ b u5 e5 k5.
        >>=-then _ _ u5 k5 λ c u6 e6 k6.
          let read = get_order_by_id_store out id w u1 o e1 in
          let (fine, same) = lift-ok (capturable o) u1 e2 in
          let asked = ask_capture_store out _ u2 u3 result e3 in
          let kept : u4.store ≡ w.store = ground arith in
          let dead =
            write_event_again out id "capture_requested" req.idempotency_key (of_capture req) u4
              (ap (λ (x : Session Store). x.status) kept ∙ act)
              (ap
                  (λ (x : Session Store).
                    any (is_order_event id req.idempotency_key) x.tables.events)
                  kept
                ∙ k) in
          let last : u5.store.status ≡ failed =
            ap (λ (x : Result Failure (Unit {0}) × Orders). x.1.store.status) (sym e5) ∙ dead in
          let stop =
            write_event_failed out id (result_kind result.status) result.provider_tx_id
              (of_response (response_of o req result at)) u5 last in
          absurd (ground arith)

-- A capture whose idempotency key an event of the order has already is always an error, also when
-- the provider has been asked and has captured the payment, and leaves the tables as they were.
pub capture_payment_again :
    (out : Outside) (id : String) (req : CaptureRequest) (w : Orders)
    → any (is_order_event id req.idempotency_key) w.store.tables.events ≡ true
    → (e : Failure) × ((capture_payment out id req w).0 ≡ err e)
      × ((capture_payment out id req w).1.store.tables ≡ w.store.tables)
unfolding capture_payment ◌>>=◌ in_transaction
capture_payment_again out id req w k = elim (Bool-cases (out.env.fault w.tick)) [
  | inl down ↦ (database, ground arith, ground arith)
  | inr up ↦ elim (Result-cases (apply_capture out id req (begun w)).0) [
    | inl (r, fine) ↦ absurd (
        apply_capture_again out id req (begun w) (apply_capture out id req (begun w)).1 r refl k
          (ground arith))
    | inr (e, l) ↦ (e, ground arith, ground arith)
  ]
]
