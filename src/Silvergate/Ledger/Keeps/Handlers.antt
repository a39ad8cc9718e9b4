-- ===== src/Silvergate/Ledger/Keeps/Handlers.antt =====
-- The operations of the gateway keep the books in order.
use distributed_payment_mana.Prelude.{
  String, Bool, true, false, Option, none, some, refl, inl, inr, arith,
}
use distributed_payment_mana.Exec.{Result, ok, err}
use distributed_payment_mana.Exec.Outcome.{Result-cases}
use distributed_payment_mana.Postgres.{Uuid}
use distributed_payment_mana.Silvergate.Errors.{Error}
use distributed_payment_mana.Silvergate.Transaction.Entity.{Transaction}
use distributed_payment_mana.Silvergate.Product.Entity.{Product}
use distributed_payment_mana.Silvergate.Product.Repo.{get_product, mark_purchased}
use distributed_payment_mana.Silvergate.Product.Service.{get, mark_purchased_in_tx}
use distributed_payment_mana.Silvergate.Runtime.{Outside, settle, void_notify}
use distributed_payment_mana.Silvergate.Transaction.Repo.{get_by_purchase_idempotency_key}
use distributed_payment_mana.Silvergate.Transaction.Service.{
  AuthRequest, CaptureRequest, RefundRequest, authorize_in_tx, authorize, capture, refund_payment,
  void,
}
use distributed_payment_mana.Silvergate.Transaction.Service.Atomic.{
  IsQuiet, quiet_rules, IsQuiet-if, IsQuiet-pure, IsQuiet-authorize_in_tx, authorize_in_tx_error,
  capture_error, refund_error, void_error,
}
use distributed_payment_mana.Silvergate.Transaction.Service.Outcome.{
  authorize_in_tx_ok, capture_ok, refund_ok, void_ok,
}
use distributed_payment_mana.Silvergate.Ledger.Changes.{Books-spawn}
use distributed_payment_mana.Silvergate.Ledger.Requests.{
  authorized-Books, captured-Books, voided-Books, reserved-Books,
}
use distributed_payment_mana.Silvergate.Purchase.{
  Request, Response, mark_if, continued, answered, is_race, check_idempotency, resolve_race,
  purchase_in_tx, finish_purchase, fresh_purchase, purchase_product,
}
use distributed_payment_mana.Silvergate.Ledger.Keeps.{
  Aside-Ledger, Keeps, Keeps-get_product, Keeps-if, Keeps-in_transaction, Keeps-mark_purchased,
  Keeps-pure, Keeps-raise, call_rules,
}

module _ (out : Outside) where
  pub Keeps-authorize_in_tx : (req : AuthRequest) → Keeps (authorize_in_tx out req)
  Keeps-authorize_in_tx req = record {
    at = λ w h. elim (Result-cases (authorize_in_tx out req w).0) [
      | inl (tx, r) ↦
          let v = (authorize_in_tx out req w).1 in
          let (a, (se, ta)) = authorize_in_tx_ok out w {v = v} req {tx = tx} (ground arith) in
          rw ta (authorized-Books w h out req tx v.store a)
      | inr (e, r) ↦
          let v = (authorize_in_tx out req w).1 in
          let same = authorize_in_tx_error out w {e = e} {v = v} req (ground arith) in
          Aside-Ledger w v (ground arith, ground arith, same.tasks) h
    ];
  }

  pub Keeps-capture : (req : CaptureRequest) → Keeps (capture out req)
  Keeps-capture req = record {
    at = λ w h. elim (Result-cases (capture out req w).0) [
      | inl (resp, r) ↦
          let v = (capture out req w).1 in
          let (tx, m, _, se, ta) = capture_ok out w {v = v} req {resp = resp} (ground arith) in
          rw ta (
            Books-spawn (captured-Books w h req tx v.store m) (settle tx req.amount) tt
              (λ id. refl))
      | inr (e, r) ↦
          let v = (capture out req w).1 in
          let same = capture_error out w {e = e} {v = v} req (ground arith) in
          Aside-Ledger w v (ground arith, ground arith, same.tasks) h
    ];
  }

  pub Keeps-void : (id : Uuid) → Keeps (void out id)
  Keeps-void id = record {
    at = λ w h. elim (Result-cases (void out id w).0) [
      | inl (resp, r) ↦
          let v = (void out id w).1 in
          let (tx, m, _, se, ta) = void_ok out w {v = v} id {resp = resp} (ground arith) in
          rw ta (Books-spawn (voided-Books w h id tx v.store m) (void_notify tx) tt (λ id. refl))
      | inr (e, r) ↦
          let v = (void out id w).1 in
          let same = void_error out w {e = e} {v = v} id (ground arith) in
          Aside-Ledger w v (ground arith, ground arith, same.tasks) h
    ];
  }

  pub Keeps-refund_payment : (req : RefundRequest) → Keeps (refund_payment out req)
  Keeps-refund_payment req = record {
    at = λ w h. elim (Result-cases (refund_payment out req w).0) [
      | inl (resp, r) ↦
          let v = (refund_payment out req w).1 in
          let (tx, rf, m, _, se, ta) = refund_ok out w {v = v} req {resp = resp} (ground arith) in
          rw ta (reserved-Books w h req tx rf v.store m)
      | inr (e, r) ↦
          let v = (refund_payment out req w).1 in
          let same = refund_error out w {e = e} {v = v} req (ground arith) in
          Aside-Ledger w v (ground arith, ground arith, same.tasks) h
    ];
  }

  pub Keeps-authorize : (req : AuthRequest) → Keeps (authorize out req)
  unfolding authorize
  Keeps-authorize req = search (call_rules, Keeps-authorize_in_tx)

  Keeps-mark_if : (b : Bool) (req : Request) → Keeps (mark_if out b req)
  unfolding mark_if mark_purchased_in_tx
  Keeps-mark_if true req = Keeps-mark_purchased out.env req.merchant_id req.product_id
  Keeps-mark_if false req = Keeps-pure tt

  Keeps-purchase_in_tx : (req : Request) (p : Product) → Keeps (purchase_in_tx out req p)
  unfolding purchase_in_tx
  Keeps-purchase_in_tx req p = search (call_rules, Keeps-authorize_in_tx, Keeps-mark_if)

  IsQuiet-mark_if : (b : Bool) (req : Request) → IsQuiet (mark_if out b req)
  unfolding mark_if mark_purchased_in_tx mark_purchased get_product
  IsQuiet-mark_if true req = search (quiet_rules, IsQuiet-if) depth 9
  IsQuiet-mark_if false req = IsQuiet-pure tt

  IsQuiet-purchase_in_tx : (req : Request) (p : Product) → IsQuiet (purchase_in_tx out req p)
  unfolding purchase_in_tx
  IsQuiet-purchase_in_tx req p = search (quiet_rules, IsQuiet-authorize_in_tx, IsQuiet-mark_if)

  Keeps-lookup :
      (merchant key : String) → Keeps (get_by_purchase_idempotency_key out.env merchant key)
  unfolding get_by_purchase_idempotency_key
  Keeps-lookup merchant key = search call_rules

  Keeps-resolve_race : (req : Request) → Keeps (resolve_race out req)
  unfolding resolve_race
  Keeps-resolve_race req = search (call_rules, Keeps-lookup)

  Keeps-finish_purchase : (req : Request) (tx : Transaction) → Keeps (finish_purchase out req tx)
  unfolding finish_purchase
  Keeps-finish_purchase req tx = search (call_rules, Keeps-capture)

  Keeps-continued : (req : Request) (r : Result Error Transaction) → Keeps (continued out req r)
  unfolding continued
  Keeps-continued req (ok tx) = Keeps-finish_purchase req tx
  Keeps-continued req (err e) = Keeps-if (is_race e) _ _ (Keeps-resolve_race req) (Keeps-raise e)

  Keeps-fresh_purchase : (req : Request) → Keeps (fresh_purchase out req)
  unfolding fresh_purchase get
  Keeps-fresh_purchase req =
      search
        (
          call_rules, Keeps-get_product, Keeps-in_transaction, Keeps-purchase_in_tx,
          IsQuiet-purchase_in_tx, Keeps-continued,
        )
        depth 9

  Keeps-answered : (req : Request) (o : Option Response) → Keeps (answered out req o)
  unfolding answered
  Keeps-answered req none = Keeps-fresh_purchase req
  Keeps-answered req (some cached) = Keeps-pure cached

  Keeps-check_idempotency : (req : Request) → Keeps (check_idempotency out req)
  unfolding check_idempotency
  Keeps-check_idempotency req = search (call_rules, Keeps-lookup)

  pub Keeps-purchase : (req : Request) → Keeps (purchase_product out req)
  unfolding purchase_product
  Keeps-purchase req = search (call_rules, Keeps-check_idempotency, Keeps-answered)
