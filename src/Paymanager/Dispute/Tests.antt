-- ===== src/Paymanager/Dispute/Tests.antt =====
-- Disputes on concrete inputs.
use distributed_payment_mana.Paymanager.Dispute.Repo.{get_evidence}
use distributed_payment_mana.Paymanager.Dispute.Repo.{
  create_dispute_event, create_event, get_dispute_by_order_id, update_dispute,
}
use distributed_payment_mana.Paymanager.Dispute.Tables.{
  has_id, is_evidence_of, add_sink_event, dispute_checks, sink_checks,
}
use distributed_payment_mana.Paymanager.Events.{add_event, stored_checks}
use distributed_payment_mana.Paymanager.Dispute.Entity.{kind_of}
use distributed_payment_mana.Silvergate.Tables.{update_where}
use distributed_payment_mana.Prelude.{
  ℕ, ◌+◌, str_eq, true, false, none, some, Option, List, [], ◌∷◌, any, ◌≡◌, refl, ◌⊎◌, inl,
}
use distributed_payment_mana.Exec.{ok, err, ◌>>=◌}
use distributed_payment_mana.Postgres.{Env, now, new_uuid}
use distributed_payment_mana.Postgres.Session.{idle, statement, in_transaction}
use distributed_payment_mana.Silvergate.Tables.{find}
use distributed_payment_mana.Paymanager.Events.{StoredEvent}
use distributed_payment_mana.Paymanager.Dispute.Entity.{
  Status, dispute_open, under_review, won, lost, closed, Dispute, ChargebackWebhook,
  chargeback_opened, chargeback_updated, chargeback_closed, apply_chargeback_webhook, resolution,
  lookup, Evidence, EvidenceUpsert, Payload, of_webhook, Failure, is_eligible,
}
use distributed_payment_mana.Paymanager.Dispute.Tables.{Disputes}
use distributed_payment_mana.Paymanager.Dispute.Repo.{get_dispute_by_id}
use distributed_payment_mana.Paymanager.Dispute.Service
use distributed_payment_mana.Paymanager.Dispute.Service.{
  Outside, process_chargeback, add_evidence, submit_dispute, handled,
}
use distributed_payment_mana.Paymanager.Dispute.Service.Duplicates.{process_chargeback_again}
use distributed_payment_mana.Paymanager.Dispute.Service.Guards.{
  call_of, apply_chargeback_webhook-status, said, add_evidence_final, submit_dispute_calls,
}

abbrev calm : Env
calm = record {
  now = λ n. n;
  uuid = λ n. n + 100;
  fault = λ n. false;
  uuid_string = λ n. "uuid";
  format_time = λ n. "time";
}

abbrev bank : Outside
bank = record {
  env = calm;
  submit = λ n call. ok "sub";
  numeric = λ n. some n;
  to_lower = λ s. s;
  encode_cursor = λ c. "cursor";
  decode_cursor = λ s. none;
}

abbrev dispute_in : Status → Option ℕ → Dispute
dispute_in s closed_at = record {
  dispute_id = "d1";
  status = s;
  order_id = "o1";
  submitting_id = none;
  reason = "fraud";
  amount = 7;
  currency = "USD";
  opened_at = 1;
  evidence_due_at = none;
  submitted_at = none;
  closed_at = closed_at;
}

abbrev reopening : ChargebackWebhook
reopening = record {
  provider_event_id = "ev";
  order_id = "o1";
  user_id = "u1";
  status = chargeback_opened;
  reason = "fraud";
  amount = 7;
  currency = "USD";
  occurred_at = 9;
  evidence_due_at = none;
  meta = none;
}

abbrev at_four : Option ℕ
at_four = some 4

abbrev at_nine : Option ℕ
at_nine = some 9

abbrev upsert : EvidenceUpsert
upsert = record { fields = []; files = [] }

abbrev proof : Evidence
proof = record { dispute_id = "d1"; content = upsert; updated_at = 2 }

abbrev stored : StoredEvent Payload
stored = record {
  id = 5;
  aggregate_type = "dispute";
  aggregate_id = "d1";
  event_type = "webhook_opened";
  idempotency_key = "ev";
  payload = of_webhook reopening;
  created_at = 2;
}

abbrev world_of : Dispute → List (StoredEvent Payload) → Disputes
world_of d events = record {
  tick = 0;
  store = record {
    tables = record {
      orders = "o1" ∷ [];
      disputes = d ∷ [];
      evidence = proof ∷ [];
      dispute_events = [];
      events = events;
    };
    status = idle;
  };
  sent = [];
  tasks = [];
}

abbrev ending : ChargebackWebhook
ending = record reopening { status = chargeback_closed; meta = some (("resolution", "lost") ∷ []) }

-- A dispute that was open is lost.
apply_chargeback_webhook-status_example :
    ((chargeback_closed ≡ chargeback_opened) × (lost ≡ dispute_open) × (at_nine ≡ at_four))
    ⊎ (((chargeback_closed ≡ chargeback_updated) × (lost ≡ dispute_open) × (at_nine ≡ at_four))
        ⊎ ((chargeback_closed ≡ chargeback_closed)
            × (((str_eq (said (λ s. s) ending) "won" ≡ true) × (lost ≡ won))
                ⊎ (((str_eq (said (λ s. s) ending) "lost" ≡ true) × (lost ≡ lost))
                    ⊎ ((str_eq (said (λ s. s) ending) "won" ≡ false)
                        × (str_eq (said (λ s. s) ending) "lost" ≡ false)
                        × (lost ≡ closed))))
            × (at_nine ≡ at_nine)))
unfolding apply_chargeback_webhook resolution lookup
apply_chargeback_webhook-status_example =
    apply_chargeback_webhook-status (λ s. s) (dispute_in dispute_open (some 4))
      (dispute_in lost (some 9)) ending refl

first_delivery :
    handled (process_chargeback bank reopening (world_of (dispute_in dispute_open none) [])).0
    ≡ true
unfolding handled process_chargeback ◌>>=◌ in_transaction statement now new_uuid any find
    Service.apply_webhook get_dispute_by_order_id Service.change_dispute apply_chargeback_webhook
    update_dispute dispute_checks Service.write_event create_event add_event stored_checks kind_of
    Service.sink_event create_dispute_event add_sink_event sink_checks update_where
first_delivery = refl

process_chargeback_again_example :
    (e : Failure) × ((process_chargeback bank reopening
        (world_of (dispute_in dispute_open none) (stored ∷ []))).0
      ≡ err e)
    × (handled (err e) ≡ false)
    × ((process_chargeback bank reopening
          (world_of (dispute_in dispute_open none) (stored ∷ []))).1.store.tables
        ≡ (world_of (dispute_in dispute_open none) (stored ∷ [])).store.tables)
unfolding any find
process_chargeback_again_example =
    process_chargeback_again bank reopening (dispute_in dispute_open none)
      (world_of (dispute_in dispute_open none) (stored ∷ [])) refl refl

add_evidence_final_example :
    (e : Failure) × ((add_evidence bank "d1" upsert (world_of (dispute_in won (some 4)) [])).0
      ≡ err e)
    × ((add_evidence bank "d1" upsert (world_of (dispute_in won (some 4)) [])).1.store.tables
        ≡ (world_of (dispute_in won (some 4)) []).store.tables)
unfolding get_dispute_by_id statement find
add_evidence_final_example =
    add_evidence_final bank "d1" upsert (world_of (dispute_in won (some 4)) [])
      (dispute_in won (some 4)) refl (inl refl)

submit_dispute_calls_example :
    ((submit_dispute bank "d1" (world_of (dispute_in dispute_open none) [])).1.sent ≡ [])
    ⊎ ((d : Dispute) × (e : Evidence) × (find (has_id "d1") (dispute_in dispute_open none ∷ [])
          ≡ some d)
        × (find (is_evidence_of "d1") (proof ∷ []) ≡ some e)
        × ((d.status ≡ dispute_open) ⊎ (d.status ≡ under_review))
        × ((submit_dispute bank "d1" (world_of (dispute_in dispute_open none) [])).1.sent
            ≡ call_of d e ∷ []))
submit_dispute_calls_example =
    submit_dispute_calls bank "d1" (world_of (dispute_in dispute_open none) [])

-- An open dispute with evidence is submitted.
submitted_once :
    (submit_dispute bank "d1" (world_of (dispute_in dispute_open none) [])).1.sent
    ≡ call_of (dispute_in dispute_open none) proof ∷ []
unfolding submit_dispute ◌>>=◌ in_transaction statement now new_uuid any find is_eligible
    get_dispute_by_id Service.apply_submit Service.ask_submit Service.record_submission
    Service.write_event Service.sink_event get_evidence update_dispute dispute_checks create_event
    add_event stored_checks create_dispute_event add_sink_event sink_checks update_where
submitted_once = refl
