-- ===== src/Paymanager/Dispute/Repo.antt =====
-- services/paymanager/internal/dispute/disputerepo: pg.go and pg_event_sink.go; and CreateEvent of
-- internal/eventstore/pg.go on the events of disputes. The replica that reads outside a transaction
-- may use is taken to be up to date.
use distributed_payment_mana.Prelude.{
  ℕ, String, Bool, Option, none, some, List, any, sort_by, ltb, str_eq, if◌then◌else◌,
}
use distributed_payment_mana.Exec.{Result, ok, err, map_err, lift, pure, ◌>>=◌, ◌>>◌}
use distributed_payment_mana.Postgres.{
  Time, Env, DbError, unique_violation, check_violation, now, new_uuid,
}
use distributed_payment_mana.Postgres.Session.{statement}
use distributed_payment_mana.Silvergate.Tables.{find, update_where}
use distributed_payment_mana.Paymanager.Events.{Key, StoredEvent, add_event}
use distributed_payment_mana.Paymanager.Events.Pages.{
  SinkEvent, EventCursor, EventQuery, EventPage, event_page,
}
use distributed_payment_mana.Paymanager.Dispute.Entity.{
  Dispute, Evidence, EvidenceUpsert, Payload, Failure, event_already_stored, stored_already,
  bad_cursor, database,
}
use distributed_payment_mana.Paymanager.Dispute.Tables.{
  Store, Call, has_id, is_of_order, is_evidence_of, dispute_checks, add_dispute, put_evidence,
  add_sink_event,
}

abbrev pub any_failure : DbError Key → Failure
any_failure e = database

-- IsPgErrorUniqueViolation
abbrev pub on_conflict : Failure → DbError Key → Failure
on_conflict f (unique_violation k) = f
on_conflict f e = database

-- ORDER BY opened_at DESC
abbrev pub opened_later : Dispute → Dispute → Bool
opened_later a b = ltb b.opened_at a.opened_at

-- The row that UpdateDispute writes over the one with the identifier.
abbrev pub overwrite : Dispute → ℕ → Dispute → Dispute
overwrite d amount row = record row {
  submitting_id = d.submitting_id;
  status = d.status;
  reason = d.reason;
  amount = amount;
  currency = d.currency;
  opened_at = d.opened_at;
  evidence_due_at = d.evidence_due_at;
  submitted_at = d.submitted_at;
  closed_at = d.closed_at;
}

-- `numeric`: what DECIMAL(10,2) makes of a number, if it fits. No row, no error.
abbrev put_dispute : Option ℕ → Dispute → Store → Result (DbError Key) (Unit {0} × Store)
put_dispute none d s =
    if any (has_id d.dispute_id) s.disputes then err DbError.other else ok (tt, s)
put_dispute (some amount) d s =
    if any (has_id d.dispute_id) s.disputes
    then if dispute_checks d
      then ok (
        tt,
        record s { disputes = update_where (has_id d.dispute_id) (overwrite d amount) s.disputes },
      )
      else err check_violation
    else ok (tt, s)

abbrev with_disputes :
    Store → Result (DbError Key) (List Dispute) → Result (DbError Key) (Unit {0} × Store)
with_disputes s (ok ds) = ok (tt, record s { disputes = ds })
with_disputes s (err e) = err e

abbrev insert_dispute : Option ℕ → Dispute → Store → Result (DbError Key) (Unit {0} × Store)
insert_dispute none d s = err DbError.other
insert_dispute (some amount) d s = with_disputes s (add_dispute (record d { amount = amount }) s)

abbrev with_evidence :
    Store → Result (DbError Key) (List Evidence) → Result (DbError Key) (Unit {0} × Store)
with_evidence s (ok es) = ok (tt, record s { evidence = es })
with_evidence s (err e) = err e

abbrev with_sink :
    Store
    → Result (DbError Key) (List (SinkEvent Payload))
    → Result (DbError Key) (Unit {0} × Store)
with_sink s (ok es) = ok (tt, record s { dispute_events = es })
with_sink s (err e) = err e

abbrev with_events :
    Store
    → Result (DbError Key) (List (StoredEvent Payload))
    → Result (DbError Key) (Unit {0} × Store)
with_events s (ok es) = ok (tt, record s { events = es })
with_events s (err e) = err e

module _ (db : Env) where
  unfoldable pub get_disputes : Call (List Dispute)
  get_disputes =
      map_err any_failure (statement db (λ (s : Store). ok (sort_by opened_later s.disputes, s)))

  unfoldable pub get_dispute_by_id : String → Call (Option Dispute)
  get_dispute_by_id id =
      map_err any_failure (statement db (λ (s : Store). ok (find (has_id id) s.disputes, s)))

  unfoldable pub get_dispute_by_order_id : String → Call (Option Dispute)
  get_dispute_by_order_id id =
      map_err any_failure (statement db (λ (s : Store). ok (find (is_of_order id) s.disputes, s)))

  -- The dispute that is returned has the amount that was given.
  unfoldable pub create_dispute : (ℕ → Option ℕ) → (String → Dispute) → Call Dispute
  create_dispute numeric new = do
    id ← new_uuid db
    map_err any_failure (
        statement db (λ (s : Store).
          insert_dispute (numeric (new (db.uuid_string id)).amount) (new (db.uuid_string id)) s))
    pure (new (db.uuid_string id))

  unfoldable pub update_dispute : (ℕ → Option ℕ) → Dispute → Call (Unit {0})
  update_dispute numeric d =
      map_err any_failure (statement db (λ (s : Store). put_dispute (numeric d.amount) d s))

  unfoldable pub upsert_evidence : String → EvidenceUpsert → Call Evidence
  upsert_evidence id upsert = do
    at ← now db
    map_err any_failure (
        statement db (λ (s : Store).
          with_evidence s
            (put_evidence (record { dispute_id = id; content = upsert; updated_at = at }) s)))
    later ← now db
    pure (record { dispute_id = id; content = upsert; updated_at = later })

  unfoldable pub get_evidence : String → Call (Option Evidence)
  get_evidence id =
      map_err any_failure
        (statement db (λ (s : Store). ok (find (is_evidence_of id) s.evidence, s)))

  -- CreateDisputeEvent
  unfoldable pub create_dispute_event : String → String → String → Payload → Time → Call (Unit {0})
  create_dispute_event dispute_id kind provider_event_id content created_at = do
    id ← new_uuid db
    map_err (on_conflict event_already_stored) (
        statement db (λ (s : Store). with_sink s (
          add_sink_event
            (record {
              event_id = id;
              owner_id = dispute_id;
              kind = kind;
              provider_event_id = provider_event_id;
              content = content;
              created_at = created_at;
            })
            s)))

  -- (*PgEventStore).CreateEvent
  unfoldable pub create_event : String → String → String → String → Payload → Time → Call (Unit {0})
  create_event aggregate_type aggregate_id event_type key payload created_at = do
    id ← new_uuid db
    map_err (on_conflict stored_already) (
        statement db (λ (s : Store). with_events s (
          add_event
            (record {
              id = id;
              aggregate_type = aggregate_type;
              aggregate_id = aggregate_id;
              event_type = event_type;
              idempotency_key = key;
              payload = payload;
              created_at = created_at;
            })
            s.events)))

  abbrev decoded : (String → Option EventCursor) → String → Result Failure (Option EventCursor)
  decoded decode s =
      if str_eq s ""
      then ok none
      else elim (decode s) [ none ↦ err bad_cursor | some c ↦ ok (some c) ]

  -- GetDisputeEvents
  unfoldable pub get_dispute_events :
      (EventCursor → String) → (String → Option EventCursor) → EventQuery → Call (EventPage Payload)
  get_dispute_events encode decode q = do
    c ← lift (decoded decode q.cursor)
    map_err any_failure
        (statement db (λ (s : Store). ok (event_page encode q c s.dispute_events, s)))
