-- ===== src/Paymanager/Dispute/Entity.antt =====
-- services/paymanager/internal/dispute: entity.go, chargeback.go, evidence.go, events.go, errors.go.
use distributed_payment_mana.Prelude.{
  ℕ, ℤ, String, Bool, true, false, Option, none, some, List, [], ◌∷◌, str_eq, if◌then◌else◌,
}
use distributed_payment_mana.Postgres.{Time}

-- DisputeStatus; it is read from its row without a check.
pub data Status : Type 0 where
  dispute_open under_review submitted won lost closed canceled : Status
  unknown : String → Status

pub record Dispute : Type 0 where
  pub dispute_id : String
  pub status : Status
  pub order_id : String
  pub submitting_id : Option String
  pub reason : String
  -- a float64 by its bits
  pub amount : ℕ
  pub currency : String
  pub opened_at : Time
  pub evidence_due_at : Option Time
  pub submitted_at : Option Time
  pub closed_at : Option Time

pub data ChargebackStatus : Type 0 where
  chargeback_opened chargeback_updated chargeback_closed : ChargebackStatus
  unknown_status : String → ChargebackStatus

-- A map that is nil is `none`.
pub record ChargebackWebhook : Type 0 where
  pub provider_event_id : String
  pub order_id : String
  pub user_id : String
  pub status : ChargebackStatus
  pub reason : String
  pub amount : ℕ
  pub currency : String
  pub occurred_at : Time
  pub evidence_due_at : Option Time
  pub meta : Option (List (String × String))

pub data Resolution : Type 0 where
  resolution_won resolution_lost : Resolution

-- The value of a key of a map; "" where it has none.
unfoldable pub lookup : String → List (String × String) → String
lookup key [] = ""
lookup key (x ∷ xs) = let rest = lookup key xs in if str_eq x.0 key then x.1 else rest

abbrev pub resolution_of : String → Option Resolution
resolution_of v =
    if str_eq v "won"
    then some resolution_won
    else if str_eq v "lost"
    then some resolution_lost
    else none

module _ (to_lower : String → String) where
  -- ChargebackWebhook.Resolution
  unfoldable pub resolution : ChargebackWebhook → Option Resolution
  unfolding lookup
  resolution ev = elim ev.meta [
    | none ↦ none
    | some m ↦ resolution_of (to_lower (lookup "resolution" m))
  ]

  abbrev closed_as : Time → Option Resolution → Status × Option Time
  closed_as at (some resolution_won) = (won, some at)
  closed_as at (some resolution_lost) = (lost, some at)
  closed_as at none = (closed, some at)

  abbrev resolved : ChargebackWebhook → ChargebackStatus → Option (Status × Option Time)
  resolved ev chargeback_opened = some (dispute_open, none)
  resolved ev chargeback_updated = some (dispute_open, none)
  resolved ev chargeback_closed = some (closed_as ev.occurred_at (resolution ev))
  resolved ev (unknown_status s) = none

  -- `none` is the error.
  unfoldable pub resolve_chargeback_status : ChargebackWebhook → Option (Status × Option Time)
  resolve_chargeback_status ev = resolved ev ev.status

  abbrev status_unless_updated : ChargebackStatus → Status → Status → Status
  status_unless_updated chargeback_updated old new = old
  status_unless_updated s old new = new

  abbrev or_else : Option Time → Option Time → Option Time
  or_else none old = old
  or_else (some t) old = some t

  abbrev applied : Dispute → ChargebackWebhook → Option (Status × Option Time) → Option Dispute
  applied d ev none = none
  applied d ev (some (status, closed_at)) = some (record d {
    status = status_unless_updated ev.status d.status status;
    evidence_due_at = or_else ev.evidence_due_at d.evidence_due_at;
    closed_at = or_else closed_at d.closed_at;
  })

  -- ApplyChargebackWebhook
  unfoldable pub apply_chargeback_webhook : Dispute → ChargebackWebhook → Option Dispute
  unfolding resolve_chargeback_status
  apply_chargeback_webhook d ev = applied d ev (resolve_chargeback_status ev)

unfoldable pub is_dispute_editable : Status → Bool
is_dispute_editable won = false
is_dispute_editable lost = false
is_dispute_editable canceled = false
is_dispute_editable s = true

-- What Submit asks of the status.
unfoldable pub is_eligible : Status → Bool
is_eligible dispute_open = true
is_eligible under_review = true
is_eligible s = false

abbrev pub is_open : Status → Bool
is_open dispute_open = true
is_open s = false

abbrev pub is_opened : ChargebackStatus → Bool
is_opened chargeback_opened = true
is_opened s = false

-- deriveKindFromChargebackStatus
unfoldable pub kind_of : ChargebackStatus → String
kind_of chargeback_opened = "webhook_opened"
kind_of chargeback_updated = "webhook_updated"
kind_of chargeback_closed = "provider_decision"
kind_of (unknown_status s) = "webhook_updated"

pub record EvidenceFile : Type 0 where
  pub file_id : String
  pub name : String
  pub content_type : String
  pub size : ℤ

-- gateway.Evidence, EvidenceUpsert
pub record EvidenceUpsert : Type 0 where
  pub fields : List (String × String)
  pub files : List EvidenceFile

pub record Evidence : Type 0 where
  pub dispute_id : String
  pub content : EvidenceUpsert
  pub updated_at : Time

-- The JSON of an event, by the value that it is made from.
pub data Payload : Type 0 where
  of_webhook : ChargebackWebhook → Payload
  of_evidence : Evidence → Payload
  of_result : String → Payload

pub data Failure : Type 0 where
  dispute_not_found evidence_not_found not_editable not_eligible unknown_webhook : Failure
  event_already_stored stored_already : Failure
  bad_cursor provider database : Failure
