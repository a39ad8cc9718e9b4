-- ===== src/Ingest/Dto.antt =====
-- services/ingest/dto: what the webhooks of the provider say.
use distributed_payment_mana.Prelude.{ℕ, ℤ, String, Option, List}
use distributed_payment_mana.Postgres.{Time}

pub record OrderUpdateRequest : Type 0 where
  pub provider_event_id : String
  pub order_id : String
  pub user_id : String
  pub status : String
  pub updated_at : Time
  pub created_at : Time
  pub meta : List (String × String)

-- The amount is a float64, by its bits.
pub record DisputeUpdateRequest : Type 0 where
  pub provider_event_id : String
  pub order_id : String
  pub user_id : String
  pub status : String
  pub reason : String
  pub amount : ℕ
  pub currency : String
  pub occurred_at : Time
  pub evidence_due_at : Option Time
  pub meta : List (String × String)

pub record PaymentWebhookRequest : Type 0 where
  pub event : String
  pub transaction_id : String
  pub refund_id : String
  pub order_id : String
  pub merchant_id : String
  pub status : String
  pub amount : ℤ
  pub currency : String
  pub timestamp : String

-- A webhook of any of the three kinds.
pub data Request : Type 0 where
  order : OrderUpdateRequest → Request
  dispute : DisputeUpdateRequest → Request
  payment : PaymentWebhookRequest → Request
