-- ===== src/Paymanager/Dispute/Tables.antt =====
-- The tables `disputes`, `evidence`, `dispute_events` and `events` of services/paymanager/migrations, as
-- disputes use them, and the running service.
use distributed_payment_mana.Prelude.{
  String, Bool, Option, none, some, List, [], ◌∷◌, ◌++◌, ◌==◌, ◌&&◌, str_eq, leb, not, count, any,
  true, if◌then◌else◌,
}
use distributed_payment_mana.Exec.{Exec, Result, ok, err}
use distributed_payment_mana.Postgres.{
  World, DbError, unique_violation, check_violation, foreign_key_violation,
}
use distributed_payment_mana.Postgres.Session.{Session}
use distributed_payment_mana.Silvergate.Tables.{update_where}
use distributed_payment_mana.Paymanager.Events.{
  Key, disputes_pkey, dispute_events_pk, idx_dispute_events_idempotency, StoredEvent,
}
use distributed_payment_mana.Paymanager.Events.Pages.{SinkEvent}
use distributed_payment_mana.Paymanager.Dispute.Entity.{
  Dispute, Evidence, EvidenceUpsert, Payload, Failure,
}

-- The columns are the fields; of `orders` only the identifiers matter.
pub record Store : Type 0 where
  pub orders : List String
  pub disputes : List Dispute
  pub evidence : List Evidence
  pub dispute_events : List (SinkEvent Payload)
  pub events : List (StoredEvent Payload)

-- gateway.RepresentmentRequest, as it was passed to the provider.
pub record Representment : Type 0 where
  pub order_id : String
  pub evidence : EvidenceUpsert

abbrev pub Disputes : Type 0
Disputes = World (Session Store) Representment (Unit {0})

abbrev pub Call : Type 0 → Type 0
Call A = Exec Disputes Failure A

abbrev pub has_id : String → Dispute → Bool
has_id id d = str_eq d.dispute_id id

abbrev pub is_of_order : String → Dispute → Bool
is_of_order id d = str_eq d.order_id id

abbrev pub is_evidence_of : String → Evidence → Bool
is_evidence_of id e = str_eq e.dispute_id id

abbrev short : Option String → Bool
short none = true
short (some s) = leb (count s) 255

-- VARCHAR(255), VARCHAR(3); every status that the program writes fits its column.
unfoldable pub dispute_checks : Dispute → Bool
dispute_checks d =
    leb (count d.dispute_id) 255
    && leb (count d.order_id) 255
    && short d.submitting_id
    && leb (count d.currency) 3

unfoldable pub add_dispute : Dispute → Store → Result (DbError Key) (List Dispute)
add_dispute d s =
    if not (dispute_checks d)
    then err check_violation
    else if any (has_id d.dispute_id) s.disputes
    then err (unique_violation disputes_pkey)
    else if not (any (str_eq d.order_id) s.orders)
    then err foreign_key_violation
    else ok (s.disputes ++ d ∷ [])

-- INSERT … ON CONFLICT (dispute_id) DO UPDATE
unfoldable pub put_evidence : Evidence → Store → Result (DbError Key) (List Evidence)
put_evidence e s =
    if not (any (has_id e.dispute_id) s.disputes)
    then err foreign_key_violation
    else if any (is_evidence_of e.dispute_id) s.evidence
    then ok (update_where (is_evidence_of e.dispute_id) (λ _. e) s.evidence)
    else ok (s.evidence ++ e ∷ [])

-- The table is partitioned by created_at, which is a part of both keys.
abbrev pub same_sink_id : SinkEvent Payload → SinkEvent Payload → Bool
same_sink_id a b = a.event_id == b.event_id && a.created_at == b.created_at

abbrev pub same_sink_event : SinkEvent Payload → SinkEvent Payload → Bool
same_sink_event a b =
    str_eq a.owner_id b.owner_id
    && str_eq a.provider_event_id b.provider_event_id
    && a.created_at == b.created_at

unfoldable pub sink_checks : SinkEvent Payload → Bool
sink_checks e = leb (count e.kind) 32 && leb (count e.provider_event_id) 255

unfoldable pub add_sink_event :
    SinkEvent Payload → Store → Result (DbError Key) (List (SinkEvent Payload))
add_sink_event e s =
    if not (sink_checks e)
    then err check_violation
    else if any (λ a. same_sink_id a e) s.dispute_events
    then err (unique_violation dispute_events_pk)
    else if any (λ a. same_sink_event a e) s.dispute_events
    then err (unique_violation idx_dispute_events_idempotency)
    else if not (any (has_id e.owner_id) s.disputes)
    then err foreign_key_violation
    else ok (s.dispute_events ++ e ∷ [])
