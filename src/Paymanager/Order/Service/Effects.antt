-- ===== src/Paymanager/Order/Service/Effects.antt =====
-- services/paymanager/internal/order/service.go: what the calls of a transaction leave, and which errors
-- they return.
use distributed_payment_mana.Prelude.{
  String, Bool, true, false, List, [], ◌∷◌, any, ◌&&◌, str_eq, ◌≡◌, arith, inl, inr,
}
use distributed_payment_mana.Exec.{ok, err, ◌>>=◌}
use distributed_payment_mana.Exec.Outcome.{
  Result-cases, >>=-then, >>=-error, lift-error, map_err-error,
}
use distributed_payment_mana.Postgres.{now, new_uuid}
use distributed_payment_mana.Postgres.Session.{active, failed, statement}
use distributed_payment_mana.Paymanager.Events.{StoredEvent, add_event}
use distributed_payment_mana.Paymanager.Order.Entity.{
  OrdersQuery, Order, OrderUpdate, Payload, Failure, database,
}
use distributed_payment_mana.Paymanager.Order.Tables.{Store, Orders}
use distributed_payment_mana.Paymanager.Order.Repo.{
  get_orders, parse_order_rows, queried, any_failure, update_order, create_event,
}
use distributed_payment_mana.Paymanager.Order.Service.{
  Outside, query_for, get_order_by_id, write_event, change_order, handled,
}

-- An event of the order with this key.
abbrev pub is_order_event : String → String → StoredEvent Payload → Bool
is_order_event id key e =
    str_eq e.aggregate_type "order" && str_eq e.aggregate_id id && str_eq e.idempotency_key key

-- In a transaction that has failed, no event is written.
pub write_event_failed :
    (out : Outside) (id kind key : String) (p : Payload) (w : Orders)
    → w.store.status ≡ failed
    → (write_event out id kind key p w).0 ≡ err database
unfolding write_event create_event ◌>>=◌ statement now new_uuid
write_event_failed out id kind key p w h = ground arith

-- The event is stored already: if that is let pass, the transaction has failed.
pub write_event_again :
    (out : Outside) (id kind key : String) (p : Payload) (w : Orders)
    → w.store.status ≡ active
    → any (is_order_event id key) w.store.tables.events ≡ true
    → (write_event out id kind key p w).1.store.status ≡ failed
unfolding write_event create_event ◌>>=◌ statement now new_uuid add_event
write_event_again out id kind key p w h k = ground arith

pub write_event-error :
    (out : Outside) (id kind key : String) (p : Payload) (w v : Orders) (e : Failure)
    → write_event out id kind key p w ≡ (err e, v)
    → e ≡ database
unfolding write_event create_event ◌>>=◌ statement now new_uuid add_event
write_event-error out id kind key p w v e h = ground arith

pub get_order_by_id_store :
    (out : Outside) (id : String) (w v : Orders) (o : Order)
    → get_order_by_id out id w ≡ (ok o, v)
    → v.store ≡ w.store
unfolding get_order_by_id get_orders ◌>>=◌ statement
get_order_by_id_store out id w v o h = ground arith

pub update_order_store :
    (out : Outside) (u : OrderUpdate) (w v : Orders)
    → update_order out.env u w ≡ (ok tt, v)
    → (v.store.status ≡ w.store.status) × (v.store.tables.events ≡ w.store.tables.events)
unfolding update_order statement
update_order_store out u w v h = ground arith

pub change_order_store :
    (out : Outside) (u : OrderUpdate) (w v : Orders)
    → change_order out u w ≡ (ok tt, v)
    → (v.store.status ≡ w.store.status) × (v.store.tables.events ≡ w.store.tables.events)
unfolding change_order
change_order_store out u w v h = >>=-then _ _ w h λ o u1 e1 k1. >>=-then _ _ u1 k1 λ a u2 e2 k2.
    let read = get_order_by_id_store out u.order_id w u1 o e1 in
    let done = update_order_store out u u2 v k2 in ground arith

pub parse_order_rows-error :
    (os : List Order) (e : Failure) → parse_order_rows os ≡ err e → handled (err e) ≡ false
unfolding parse_order_rows handled
parse_order_rows-error [] e h = absurd (ground arith)
parse_order_rows-error (o ∷ os) e h = elim (Result-cases (parse_order_rows os)) [
  | inl (ps, k) ↦ ground arith
  | inr (f, k) ↦ let rest = parse_order_rows-error os f k in ground arith
]

pub get_orders-error :
    (out : Outside) (q : OrdersQuery) (w v : Orders) (e : Failure)
    → get_orders out.env q w ≡ (err e, v)
    → handled (err e) ≡ false
unfolding get_orders handled
get_orders-error out q w v e h = elim (>>=-error _ _ w h) [
  | inl k ↦
      let (d, l, same) =
        map_err-error any_failure (statement out.env (λ (s : Store). ok (queried q s.orders, s))) w
          k in
      ground arith
  | inr (rows, u, k, l) ↦ parse_order_rows-error rows e (lift-error _ u l).0
]

pub get_order_by_id-error :
    (out : Outside) (id : String) (w v : Orders) (e : Failure)
    → get_order_by_id out id w ≡ (err e, v)
    → handled (err e) ≡ false
unfolding get_order_by_id handled
get_order_by_id-error out id w v e h = elim (>>=-error _ _ w h) [
  | inl k ↦ get_orders-error out (query_for id) w v e k
  | inr (os, u, k, l) ↦ ground arith
]

pub update_order-error :
    (out : Outside) (u : OrderUpdate) (w v : Orders) (e : Failure)
    → update_order out.env u w ≡ (err e, v)
    → handled (err e) ≡ false
unfolding update_order statement handled
update_order-error out u w v e h = ground arith

pub change_order-error :
    (out : Outside) (u : OrderUpdate) (w v : Orders) (e : Failure)
    → change_order out u w ≡ (err e, v)
    → handled (err e) ≡ false
unfolding change_order handled
change_order-error out u w v e h = elim (>>=-error _ _ w h) [
  | inl k ↦ get_order_by_id-error out u.order_id w v e k
  | inr (o, u1, k, l) ↦ elim (>>=-error _ _ u1 l) [
    | inl k2 ↦ let (refused, same) = lift-error _ u1 k2 in ground arith
    | inr (a, u2, k2, l2) ↦ update_order-error out u u2 v e l2
  ]
]
