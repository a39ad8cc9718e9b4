-- ===== src/Paymanager/Dispute/Service/Duplicates.antt =====
-- A chargeback webhook that is delivered again, as services/paymanager/internal/dispute/service.go
-- takes it: writeEvent lets the unique index of events pass, but the statement has failed, and its
-- transaction with it.
use distributed_payment_mana.Prelude.{
  String, Bool, true, false, some, any, ◌&&◌, str_eq, ◌≡◌, refl, ap, ◌∙◌, ◌⊎◌, inl, inr, arith,
  Bool-cases,
}
use distributed_payment_mana.Exec.{Result, ok, err, continue, pure, ◌>>=◌, ◌>>◌}
use distributed_payment_mana.Exec.Outcome.{>>=-then, >>=-error, lift-error, lift-ok}
use distributed_payment_mana.Postgres.{ticked, now, new_uuid}
use distributed_payment_mana.Postgres.Session.{active, failed, statement, in_transaction, begun}
use distributed_payment_mana.Silvergate.Tables.{find}
use distributed_payment_mana.Paymanager.Events.{StoredEvent, add_event}
use distributed_payment_mana.Paymanager.Dispute.Entity.{
  Dispute, ChargebackWebhook, apply_chargeback_webhook, kind_of, Payload, of_webhook, Failure,
  unknown_webhook, database,
}
use distributed_payment_mana.Paymanager.Dispute.Tables.{Disputes, is_of_order}
use distributed_payment_mana.Paymanager.Dispute.Repo.{
  get_dispute_by_order_id, update_dispute, create_event,
}
use distributed_payment_mana.Paymanager.Dispute.Service.{
  Outside, required, write_event, change_dispute, apply_webhook, process_chargeback, handled,
}

-- An event of the dispute with this key.
abbrev pub is_dispute_event : String → String → StoredEvent Payload → Bool
is_dispute_event id key e =
    str_eq e.aggregate_type "dispute" && str_eq e.aggregate_id id && str_eq e.idempotency_key key

write_event_again :
    (out : Outside) (id kind key : String) (p : Payload) (w : Disputes)
    → w.store.status ≡ active
    → any (is_dispute_event id key) w.store.tables.events ≡ true
    → (write_event out id kind key p w).1.store.status ≡ failed
unfolding write_event create_event ◌>>=◌ statement now new_uuid add_event
write_event_again out id kind key p w h k = ground arith

write_event-error :
    (out : Outside) (id kind key : String) (p : Payload) (w v : Disputes) (e : Failure)
    → write_event out id kind key p w ≡ (err e, v)
    → e ≡ database
unfolding write_event create_event ◌>>=◌ statement now new_uuid add_event
write_event-error out id kind key p w v e h = ground arith

update_dispute_store :
    (out : Outside) (d : Dispute) (w v : Disputes)
    → update_dispute out.env out.numeric d w ≡ (ok tt, v)
    → (v.store.status ≡ w.store.status) × (v.store.tables.events ≡ w.store.tables.events)
unfolding update_dispute statement
update_dispute_store out d w v h = ground arith

update_dispute-error :
    (out : Outside) (d : Dispute) (w v : Disputes) (e : Failure)
    → update_dispute out.env out.numeric d w ≡ (err e, v)
    → e ≡ database
unfolding update_dispute statement
update_dispute-error out d w v e h = ground arith

apply_id :
    (out : Outside) (d after : Dispute) (ev : ChargebackWebhook)
    → required unknown_webhook (apply_chargeback_webhook out.to_lower d ev) ≡ ok after
    → after.dispute_id ≡ d.dispute_id
unfolding apply_chargeback_webhook
apply_id out d after ev h = ground arith

change_dispute_ok :
    (out : Outside) (ev : ChargebackWebhook) (d after : Dispute) (w v : Disputes)
    → change_dispute out ev d w ≡ (ok after, v)
    → (after.dispute_id ≡ d.dispute_id)
      × (v.store.status ≡ w.store.status)
      × (v.store.tables.events ≡ w.store.tables.events)
unfolding change_dispute
change_dispute_ok out ev d after w v h = >>=-then _ _ w h λ next u1 e1 k1.
    >>=-then _ _ u1 k1 λ a u2 e2 k2.
      let (fine, same) =
        lift-ok (required unknown_webhook (apply_chargeback_webhook out.to_lower d ev)) w e1 in
      let id = apply_id out d next ev fine in
      let (status, events) = update_dispute_store out next u1 u2 e2 in
      (ground arith, ground arith, ground arith)

change_dispute-error :
    (out : Outside) (ev : ChargebackWebhook) (d : Dispute) (w v : Disputes) (e : Failure)
    → change_dispute out ev d w ≡ (err e, v)
    → handled (err e) ≡ false
unfolding change_dispute handled
change_dispute-error out ev d w v e h = elim (>>=-error _ _ w h) [
  | inl k ↦
      let (refused, same) =
        lift-error (required unknown_webhook (apply_chargeback_webhook out.to_lower d ev)) w k in
      ground arith
  | inr (next, u1, k, l) ↦ elim (>>=-error _ _ u1 l) [
    | inl k2 ↦ let failed = update_dispute-error out next u1 v e k2 in ground arith
    | inr (a, u2, k2, l2) ↦ absurd (ground arith)
  ]
]

get_found :
    (out : Outside) (id : String) (d : Dispute) (w : Disputes)
    → w.store.status ≡ active
    → find (is_of_order id) w.store.tables.disputes ≡ some d
    → out.env.fault w.tick ≡ false
    → get_dispute_by_order_id out.env id w ≡ (ok (some d), ticked w)
unfolding get_dispute_by_order_id statement
get_found out id d w h k up = ground arith

get_down :
    (out : Outside) (id : String) (w : Disputes)
    → out.env.fault w.tick ≡ true
    → (get_dispute_by_order_id out.env id w).0 ≡ err database
unfolding get_dispute_by_order_id statement
get_down out id w down = ground arith

pub apply_webhook_again :
    (out : Outside) (ev : ChargebackWebhook) (d : Dispute) (w : Disputes)
    → w.store.status ≡ active
    → find (is_of_order ev.order_id) w.store.tables.disputes ≡ some d
    → any (is_dispute_event d.dispute_id ev.provider_event_id) w.store.tables.events ≡ true
    → ((e : Failure) × ((apply_webhook out ev w).0 ≡ err e) × (handled (err e) ≡ false))
      ⊎ ((a : Dispute) × ((apply_webhook out ev w).0 ≡ ok a)
          × ((apply_webhook out ev w).1.store.status ≡ failed))
unfolding apply_webhook ◌>>=◌ handled
apply_webhook_again out ev d w act found k = elim (Bool-cases (out.env.fault w.tick)) [
  | inl down ↦ inl (database, rw (get_down out ev.order_id w down) refl, refl)
  | inr up ↦
      rw (get_found out ev.order_id d w act found up) (at (change_dispute out ev d (ticked w)) refl)
]
  where
    Goal : Result Failure Dispute × Disputes → Type 0
    Goal q =
        ((e : Failure) × (q.0 ≡ err e) × (handled (err e) ≡ false))
        ⊎ ((a : Dispute) × (q.0 ≡ ok a) × (q.1.store.status ≡ failed))

    ends :
        (after : Dispute) (v : Disputes) (q : Result Failure (Unit {0}) × Disputes)
        → write_event out after.dispute_id
            (kind_of ev.status)
            ev.provider_event_id
            (of_webhook ev)
            v
          ≡ q
        → q.1.store.status ≡ failed
        → Goal (continue q.0 (λ _. pure after) q.1)
    ends after v (ok _, u) e dead = inr (after, refl, dead)
    ends after v (err f, u) e dead =
        let same =
          write_event-error out after.dispute_id (kind_of ev.status) ev.provider_event_id
            (of_webhook ev) v u f e in
        inl (f, refl, ap (λ x. handled (err x)) same)

    at :
        (q : Result Failure Dispute × Disputes)
        → change_dispute out ev d (ticked w) ≡ q
        → Goal (
            continue q.0
              (λ after.
                write_event out after.dispute_id
                  (kind_of ev.status)
                  ev.provider_event_id
                  (of_webhook ev)
                >> pure after)
              q.1)
    at (err e, v) q = inl (e, refl, change_dispute-error out ev d (ticked w) v e q)
    at (ok after, v) q =
        let (id, status, events) = change_dispute_ok out ev d after (ticked w) v q in
        ends after v _ refl (
          write_event_again out after.dispute_id (kind_of ev.status) ev.provider_event_id
            (of_webhook ev) v (status ∙ act)
            (ap (λ x. any (is_dispute_event x ev.provider_event_id) v.store.tables.events) id
              ∙ (ap (any (is_dispute_event d.dispute_id ev.provider_event_id)) events ∙ k)))

-- A webhook of a dispute whose event is stored already is always an error that the handler does not
-- take for a duplicate, whatever it says and whatever fails, and leaves the tables as they were.
pub process_chargeback_again :
    (out : Outside) (ev : ChargebackWebhook) (d : Dispute) (w : Disputes)
    → find (is_of_order ev.order_id) w.store.tables.disputes ≡ some d
    → any (is_dispute_event d.dispute_id ev.provider_event_id) w.store.tables.events ≡ true
    → (e : Failure) × ((process_chargeback out ev w).0 ≡ err e)
      × (handled (err e) ≡ false)
      × ((process_chargeback out ev w).1.store.tables ≡ w.store.tables)
unfolding process_chargeback ◌>>=◌ in_transaction handled
process_chargeback_again out ev d w found k = elim (Bool-cases (out.env.fault w.tick)) [
  | inl down ↦ (database, ground arith, ground arith, ground arith)
  | inr up ↦ elim (apply_webhook_again out ev d (begun w) refl found k) [
    | inl (e, l, dead) ↦ (e, ground arith, ground arith, ground arith)
    | inr (a, l, dead) ↦ (database, ground arith, ground arith, ground arith)
  ]
]
