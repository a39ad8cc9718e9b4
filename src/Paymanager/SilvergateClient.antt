-- ===== src/Paymanager/SilvergateClient.antt =====
-- services/paymanager/internal/silvergateclient/client.go: what is asked of silvergate, and how its
-- answers are read. net/http, encoding/json and the conversion of a float64 are parameters; the
-- connection's failure and the status code 500 are all the same to the callers.
pub mod Answers
mod Tests
use distributed_payment_mana.Prelude.{
  ℕ, ◌/◌, ◌==◌, ◌<+>◌, ℤ, String, Bool, true, false, Option, none, some, List, [], ◌∷◌, str_eq,
  if◌then◌else◌,
}
use distributed_payment_mana.Exec.{Result, ok, err, mapped}
use distributed_payment_mana.Paymanager.Order.Entity.{
  CaptureStatus, capture_success, capture_failed, Float64,
}
use distributed_payment_mana.Paymanager.Order.Tables.{ProviderCall}
use distributed_payment_mana.Paymanager.Order.Service.{CaptureResult}
use distributed_payment_mana.Paymanager.Payment.Service.{AuthRequest, AuthResult, RefundCall}
use distributed_payment_mana.Paymanager.Dispute.Entity.{EvidenceFile}
use distributed_payment_mana.Paymanager.Dispute.Tables.{Representment}

-- The bodies of the requests.
pub data Body : Type 0 where
  representment_body : String → List String → Body
  capture_body : String → ℤ → String → Body
  auth_body : AuthRequest → Body
  void_body : String → Body
  refund_body : RefundCall → Body

-- The answers, by the fields that are read; a field that the JSON does not have is "" or 0.
pub record CaptureAnswer : Type 0 where
  pub transaction_id : String
  pub status : String

pub record AuthAnswer : Type 0 where
  pub transaction_id : String
  pub status : String
  pub decline_reason : String

pub record RefundAnswer : Type 0 where
  pub refund_id : String
  pub transaction_id : String
  pub amount : ℤ
  pub status : String

pub data ClientError : Type 0 where
  marshal http unmarshal : ClientError
  -- the status code of the answer
  refused : ℕ → ClientError

-- `post` is the request by the number of the call, to an address, with a body: the status code and the
-- text of the answer, or no answer.
pub record Client : Type 0 where
  pub base_url : String
  pub submit_representment_url : String
  pub capture_url : String
  pub auth_url : String
  pub void_url : String
  pub post : ℕ → String → String → Option (ℕ × String)
  pub encode : Body → Option String
  pub decode_id : String → Option String
  pub decode_capture : String → Option CaptureAnswer
  pub decode_auth : String → Option AuthAnswer
  pub decode_refund : String → Option RefundAnswer
  -- int64(x)
  pub truncate : Float64 → ℤ

abbrev pub answer_of : Option (ℕ × String) → Result ClientError String
answer_of none = err http
answer_of (some (code, raw)) = if (code / 100) == 2 then ok raw else err (refused code)

abbrev pub posted : Client → ℕ → String → Option String → Result ClientError String
posted c n url none = err marshal
posted c n url (some body) = answer_of (c.post n url body)

abbrev pub then_read :
    {A : Type 0} → Result ClientError String → (String → Option A) → Result ClientError A
then_read (err e) decode = err e
then_read (ok raw) decode = elim (decode raw) [ none ↦ err unmarshal | some a ↦ ok a ]

unfoldable pub file_ids : List EvidenceFile → List String
file_ids [] = []
file_ids (f ∷ fs) = f.file_id ∷ file_ids fs

-- `_ = json.Unmarshal(raw, &out)`
abbrev id_or_empty : Option String → String
id_or_empty none = ""
id_or_empty (some id) = id

unfoldable pub capture_result : CaptureAnswer → CaptureResult
capture_result a = record {
  provider_tx_id = a.transaction_id;
  status = if str_eq a.status "success" then capture_success else capture_failed;
}

unfoldable pub auth_result : AuthAnswer → AuthResult
auth_result a = record {
  transaction_id = a.transaction_id;
  is_authorized = str_eq a.status "authorized";
  decline_reason = a.decline_reason;
}

module _ (c : Client) (n : ℕ) where
  unfoldable pub submit_representment : Representment → Result ClientError String
  unfolding file_ids
  submit_representment req =
      elim (posted c n c.submit_representment_url
        (c.encode (representment_body req.order_id (file_ids req.evidence.files)))) [
          | err e ↦ err e
          | ok raw ↦ ok (id_or_empty (c.decode_id raw))
        ]

  unfoldable pub capture_payment : ProviderCall → Result ClientError CaptureResult
  unfolding capture_result
  capture_payment req =
      elim (then_read
        (posted c n c.capture_url
          (c.encode (capture_body req.order_id (c.truncate req.amount) req.idempotency_key)))
        c.decode_capture) [ err e ↦ err e | ok a ↦ ok (capture_result a) ]

  unfoldable pub authorize_payment : AuthRequest → Result ClientError AuthResult
  unfolding auth_result
  authorize_payment req =
      elim (then_read (posted c n c.auth_url (c.encode (auth_body req))) c.decode_auth) [
        | err e ↦ err e
        | ok a ↦ ok (auth_result a)
      ]

  unfoldable pub void_payment : String → Result ClientError CaptureAnswer
  void_payment tx = then_read (posted c n c.void_url (c.encode (void_body tx))) c.decode_capture

  unfoldable pub refund_payment : RefundCall → Result ClientError RefundAnswer
  refund_payment req =
      then_read (posted c n (c.base_url <+> "/api/v1/refund") (c.encode (refund_body req)))
        c.decode_refund
