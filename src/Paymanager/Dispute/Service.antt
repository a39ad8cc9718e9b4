-- ===== src/Paymanager/Dispute/Service.antt =====
-- services/paymanager/internal/dispute/service.go, and what disputecontroller/kafka.go does with the
-- error of ProcessChargeback. The provider is a parameter.
pub mod Duplicates
pub mod Guards
use distributed_payment_mana.Prelude.{
  ℕ, ℤ, pos, leb_ℤ, String, Bool, true, false, Option, none, some, List, [], ◌∷◌, ◌++◌, not,
  if◌then◌else◌,
}
use distributed_payment_mana.Exec.{Exec, Result, ok, err, attempt, lift, pure, raise, ◌>>=◌, ◌>>◌}
use distributed_payment_mana.Postgres.{Env, Time, repeatable_read, ticked, now, new_uuid}
use distributed_payment_mana.Postgres.Session.{in_transaction}
use distributed_payment_mana.Paymanager.Events.Pages.{EventCursor, EventQuery, EventPage}
use distributed_payment_mana.Paymanager.Dispute.Entity.{
  Status, dispute_open, under_review, submitted, Dispute, ChargebackWebhook,
  apply_chargeback_webhook, is_dispute_editable, is_eligible, is_open, is_opened, kind_of,
  EvidenceUpsert, Evidence, Payload, of_webhook, of_evidence, of_result, Failure, dispute_not_found,
  evidence_not_found, not_editable, not_eligible, unknown_webhook, event_already_stored,
  stored_already, provider, database,
}
use distributed_payment_mana.Paymanager.Dispute.Tables.{Representment, Disputes, Call}
use distributed_payment_mana.Paymanager.Dispute.Repo.{
  get_disputes, get_dispute_by_id, get_dispute_by_order_id, create_dispute, update_dispute,
  upsert_evidence, get_evidence, create_dispute_event, create_event, get_dispute_events,
}

-- An error of the provider carries nothing that the program reads.
pub data Refusal : Type 0 where
  refusal : Refusal

-- What the service is connected to: `submit` answers with the identifier of the submission, `numeric`
-- is what DECIMAL(10,2) makes of a number, `to_lower` is strings.ToLower, and the cursors are JSON in
-- base64.
pub record Outside : Type 0 where
  pub env : Env
  pub submit : ℕ → Representment → Result Refusal String
  pub numeric : ℕ → Option ℕ
  pub to_lower : String → String
  pub encode_cursor : EventCursor → String
  pub decode_cursor : String → Option EventCursor

abbrev of_provider : {A : Type 0} → Result Refusal A → Result Failure A
of_provider (ok a) = ok a
of_provider (err e) = err provider

-- s.provider.SubmitRepresentment: the call is made whatever the answer is.
unfoldable pub ask_submit : Outside → Representment → Call String
ask_submit out call w =
    (of_provider (out.submit w.tick call), record (ticked w) { sent = w.sent ++ call ∷ [] })

abbrev pub required : {A : Type 0} → Failure → Option A → Result Failure A
required e none = err e
required e (some a) = ok a

-- An event that is stored already is no error of writeEvent.
abbrev pub stored_or : Result Failure (Unit {0}) → Result Failure (Unit {0})
stored_or (ok _) = ok tt
stored_or (err stored_already) = ok tt
stored_or (err e) = err e

-- The dispute that a webhook opens.
abbrev new_dispute : ChargebackWebhook → String → Dispute
new_dispute ev id = record {
  dispute_id = id;
  status = dispute_open;
  order_id = ev.order_id;
  submitting_id = none;
  reason = ev.reason;
  amount = ev.amount;
  currency = ev.currency;
  opened_at = ev.occurred_at;
  evidence_due_at = ev.evidence_due_at;
  submitted_at = none;
  closed_at = none;
}

abbrev pub submitted_as : Dispute → String → Time → Dispute
submitted_as d id at = record d {
  submitted_at = some at;
  submitting_id = some id;
  status = submitted;
}

module _ (out : Outside) where
  unfoldable pub write_event : String → String → String → Payload → Call (Unit {0})
  write_event dispute_id kind key payload = do
    at ← now out.env
    written ← attempt (create_event out.env "dispute" dispute_id kind key payload at)
    lift (stored_or written)

  -- saveWebhookEvent, createEvidenceAddedEvent, createEvidenceSubmittedEvent
  unfoldable pub sink_event : String → String → String → Payload → Call (Unit {0})
  sink_event dispute_id kind key payload = do
    at ← now out.env
    create_dispute_event out.env dispute_id kind key payload at

  unfoldable pub open_dispute : ChargebackWebhook → Call Dispute
  open_dispute ev = do
    lift (if is_opened ev.status then ok tt else err dispute_not_found)
    create_dispute out.env out.numeric (new_dispute ev)

  unfoldable pub change_dispute : ChargebackWebhook → Dispute → Call Dispute
  change_dispute ev d = do
    after ← lift (required unknown_webhook (apply_chargeback_webhook out.to_lower d ev))
    update_dispute out.env out.numeric after
    pure after

  abbrev pub open_or_change : ChargebackWebhook → Option Dispute → Call Dispute
  open_or_change ev none = open_dispute ev
  open_or_change ev (some d) = change_dispute ev d

  -- The transaction of ProcessChargeback.
  unfoldable pub apply_webhook : ChargebackWebhook → Call Dispute
  apply_webhook ev = do
    found ← get_dispute_by_order_id out.env ev.order_id
    after ← open_or_change ev found
    write_event after.dispute_id (kind_of ev.status) ev.provider_event_id (of_webhook ev)
    pure after

  unfoldable pub process_chargeback : ChargebackWebhook → Call (Unit {0})
  process_chargeback ev = do
    after ← in_transaction out.env database repeatable_read (apply_webhook ev)
    sink_event after.dispute_id (kind_of ev.status) ev.provider_event_id (of_webhook ev)

  -- The transaction of UpsertEvidence.
  unfoldable pub apply_evidence : String → EvidenceUpsert → Call Evidence
  apply_evidence id upsert = do
    found ← get_dispute_by_id out.env id
    d ← lift (required dispute_not_found found)
    lift (if is_dispute_editable d.status then ok tt else err not_editable)
    e ← upsert_evidence out.env id upsert
    (if is_open d.status
        then update_dispute out.env out.numeric (record d { status = under_review })
        else pure tt)
    key ← new_uuid out.env
    write_event id "evidence_added" (out.env.uuid_string key) (of_evidence e)
    pure e

  unfoldable pub add_evidence : String → EvidenceUpsert → Call Evidence
  add_evidence id upsert = do
    e ← in_transaction out.env database repeatable_read (apply_evidence id upsert)
    key ← new_uuid out.env
    sink_event id "evidence_added" (out.env.uuid_string key) (of_evidence e)
    pure e

  -- Submit from the answer of the provider to the end of its transaction.
  unfoldable pub record_submission : String → Dispute → String → Call String
  record_submission id d submission = do
    at ← now out.env
    update_dispute out.env out.numeric (submitted_as d submission at)
    write_event id "evidence_submitted" submission (of_result submission)
    pure submission

  -- The transaction of Submit.
  unfoldable pub apply_submit : String → Call String
  apply_submit id = do
    found ← get_dispute_by_id out.env id
    d ← lift (required dispute_not_found found)
    lift (if is_eligible d.status then ok tt else err not_eligible)
    evidence ← get_evidence out.env id
    e ← lift (required evidence_not_found evidence)
    submission ← ask_submit out (record { order_id = d.order_id; evidence = e.content })
    record_submission id d submission

  unfoldable pub submit_dispute : String → Call (Unit {0})
  submit_dispute id = do
    submission ← in_transaction out.env database repeatable_read (apply_submit id)
    sink_event id "evidence_submitted" submission (of_result submission)

  -- GetEvents
  unfoldable pub get_events : EventQuery → Call (EventPage Payload)
  get_events q =
      get_dispute_events out.env out.encode_cursor out.decode_cursor
        (record q { limit = if leb_ℤ q.limit (pos 0) then pos 10 else q.limit })

-- HandleMessage: whether the message is done with.
unfoldable pub handled : Result Failure (Unit {0}) → Bool
handled (ok _) = true
handled (err event_already_stored) = true
handled (err e) = false
