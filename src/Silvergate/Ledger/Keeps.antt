-- ===== src/Silvergate/Ledger/Keeps.antt =====
-- Calls that keep the books in order: one rule for each way to build a call, and those on products.
pub mod Handlers
use distributed_payment_mana.Prelude.{
  ℕ, String, Bool, true, false, Option, none, some, ◌≡◌, refl, ap, subst, inl, inr, arith,
  if◌then◌else◌,
}
use distributed_payment_mana.Exec.{
  Exec, Result, ok, err, attempt, lift, pure, map_err, continue, raise, ◌>>=◌,
}
use distributed_payment_mana.Exec.Outcome.{Result-cases}
use distributed_payment_mana.Postgres.{
  Uuid, Env, IsoLevel, ticked, statement, now, new_uuid, in_transaction,
}
use distributed_payment_mana.Postgres.Outcome.{
  in_transaction_ok, in_transaction_error, in_transaction-Quiet,
}
use distributed_payment_mana.Silvergate.Errors.{Error}
use distributed_payment_mana.Silvergate.Transaction.Entity.{Transaction}
use distributed_payment_mana.Silvergate.Tables.{TransactionRow}
use distributed_payment_mana.Silvergate.Product.Entity.{Product, Status}
use distributed_payment_mana.Silvergate.Product.Update.{Update, UpdateRequest}
use distributed_payment_mana.Silvergate.Product.Repo.{
  insert_product, update_products, select_product, create_product, get_product,
  disambiguate_update_miss, update_product, set_status, mark_purchased,
}
use distributed_payment_mana.Silvergate.Product.Service.{
  CreateInput, create, get, update, mark_purchased_in_tx,
}
use distributed_payment_mana.Silvergate.Runtime.{Gateway, Call, Outside, settle, void_notify}
use distributed_payment_mana.Silvergate.Transaction.Repo.{
  get_by_purchase_idempotency_key, select_transaction,
}
use distributed_payment_mana.Silvergate.Transaction.Service.{
  AuthRequest, CaptureRequest, RefundRequest, authorize_in_tx, authorize, capture, refund_payment,
  void,
}
use distributed_payment_mana.Silvergate.Transaction.Service.Atomic.{
  IsQuiet, quiet_rules, IsQuiet-if, IsQuiet-pure, IsQuiet-authorize_in_tx, authorize_in_tx_error,
  capture_error, refund_error, void_error,
}
use distributed_payment_mana.Silvergate.Transaction.Service.Outcome.{
  authorize_in_tx_ok, capture_ok, refund_ok, void_ok,
}
use distributed_payment_mana.Silvergate.Ledger.{Ledger}
use distributed_payment_mana.Silvergate.Ledger.Changes.{Books-spawn}
use distributed_payment_mana.Silvergate.Ledger.Requests.{
  authorized-Books, captured-Books, voided-Books, reserved-Books,
}
use distributed_payment_mana.Silvergate.Purchase.{
  Request, Response, mark_if, continued, answered, is_race, check_idempotency, resolve_race,
  purchase_in_tx, finish_purchase, fresh_purchase, purchase_product,
}

pub record Keeps {E A : Type 0} (m : Exec Gateway E A) : Type 0 where
  pub at : {paid : Uuid → ℕ} (w : Gateway) → Ledger paid w → Ledger paid (m w).1

module _ {E A B : Type 0} where
  pub Keeps-bind :
      (m : Exec Gateway E A) (f : A → Exec Gateway E B)
      → Keeps m
      → ((a : A) → Keeps (f a))
      → Keeps (m >>= f)
  unfolding ◌>>=◌
  Keeps-bind m f km kf = record { at = λ w h. go (m w).0 (m w).1 (km.at w h) }
    where
      go :
          {paid : Uuid → ℕ} (r : Result E A) (v : Gateway)
          → Ledger paid v
          → Ledger paid (continue r f v).1
      go (ok a) v h = (kf a).at v h
      go (err e) v h = h

module _ {E A : Type 0} where
  pub Keeps-lift : (r : Result E A) → Keeps (lift r)
  Keeps-lift r = record { at = λ w h. h }

  pub Keeps-pure : (a : A) → Keeps (pure {E = E} a)
  Keeps-pure a = record { at = λ w h. h }

  pub Keeps-raise : (e : E) → Keeps (raise {A = A} e)
  Keeps-raise e = record { at = λ w h. h }

  pub Keeps-attempt : (m : Exec Gateway E A) → Keeps m → Keeps (attempt m)
  Keeps-attempt m k = record { at = k.at }

  pub Keeps-map_err :
      {F : Type 0} (f : E → F) (m : Exec Gateway E A) → Keeps m → Keeps (map_err f m)
  Keeps-map_err f m k = record { at = k.at }

  pub Keeps-if :
      (b : Bool) (m n : Exec Gateway E A) → Keeps m → Keeps n → Keeps (if b then m else n)
  Keeps-if true m n km kn = km
  Keeps-if false m n km kn = kn

pub Keeps-now : {E : Type 0} (env : Env) → Keeps (now {E = E} env)
unfolding now
Keeps-now env = record { at = λ w h. h }

pub Keeps-new_uuid : {E : Type 0} (env : Env) → Keeps (new_uuid {E = E} env)
unfolding new_uuid
Keeps-new_uuid env = record { at = λ w h. h }

-- The tables of the books and the goroutines are those found.
abbrev Aside : Gateway → Gateway → Type 0
Aside w v =
    (v.store.transactions ≡ w.store.transactions)
    × (v.store.refunds ≡ w.store.refunds)
    × (v.tasks ≡ w.tasks)

pub Aside-Ledger : {paid : Uuid → ℕ} (w v : Gateway) → Aside w v → Ledger paid w → Ledger paid v
Aside-Ledger w v (ts, rs, ta) h = rw (ts, rs, ta) h

-- A statement on the table `products`, or one that only reads.
Keeps-insert_product : (env : Env) (p : Product) → Keeps (statement env (insert_product p))
unfolding statement insert_product
Keeps-insert_product env p = record {
  at = λ w h.
      Aside-Ledger w (statement env (insert_product p) w).1
        (ground arith, ground arith, ground arith) h;
}

Keeps-update_products :
    (env : Env) (p : Product → Bool) (f : Product → Product)
    → Keeps (statement env (update_products p f))
unfolding statement update_products
Keeps-update_products env p f = record {
  at = λ w h.
      Aside-Ledger w (statement env (update_products p f) w).1
        (ground arith, ground arith, ground arith) h;
}

Keeps-select_product : (env : Env) (p : Product → Bool) → Keeps (statement env (select_product p))
unfolding statement select_product
Keeps-select_product env p = record {
  at = λ w h.
      Aside-Ledger w (statement env (select_product p) w).1
        (ground arith, ground arith, ground arith) h;
}

Keeps-select_transaction :
    (env : Env) (p : TransactionRow → Bool) → Keeps (statement env (select_transaction p))
unfolding statement select_transaction
Keeps-select_transaction env p = record {
  at = λ w h.
      Aside-Ledger w (statement env (select_transaction p) w).1
        (ground arith, ground arith, ground arith) h;
}

-- A transaction keeps what its body keeps, and a roll back brings the tables back.
pub Keeps-in_transaction :
    {A : Type 0} (env : Env) (e : Error) (iso : IsoLevel) (m : Call A)
    → IsQuiet m
    → Keeps m
    → Keeps (in_transaction env e iso m)
Keeps-in_transaction env e iso m quiet keeps = record {
  at = λ {paid} w h. elim (Result-cases (in_transaction env e iso m w).0) [
    | inl (a, r) ↦
        let v = (in_transaction env e iso m w).1 in
        let (u, run, st, se, ta) = in_transaction_ok env e iso m w {a = a} {v = v} (ground arith) in
        let h' : Ledger paid (m (ticked w)).1 = keeps.at (ticked w) h in
        Aside-Ledger u v (ground arith, ground arith, ta)
          (subst (Ledger paid) (ap (λ (p : Result Error _ × Gateway). p.1) run) h')
    | inr (x, r) ↦
        let q = in_transaction-Quiet env e iso m w quiet.at in
        let st = in_transaction_error env e iso m w r in
        Aside-Ledger w (in_transaction env e iso m w).1 (ground arith, ground arith, q.1) h
  ];
}

ruleset call_rules = (
  Keeps-bind, Keeps-lift, Keeps-pure, Keeps-raise, Keeps-attempt, Keeps-map_err, Keeps-if,
  Keeps-now, Keeps-new_uuid, Keeps-insert_product, Keeps-update_products, Keeps-select_product,
  Keeps-select_transaction,
)

module _ (db : Env) (merchant : String) (id : Uuid) where
  pub Keeps-get_product : Keeps (get_product db merchant id)
  unfolding get_product
  Keeps-get_product = search call_rules

  pub Keeps-mark_purchased : Keeps (mark_purchased db merchant id)
  unfolding mark_purchased
  Keeps-mark_purchased = search (call_rules, Keeps-get_product) depth 9

  Keeps-disambiguate : (upd : Update) → Keeps (disambiguate_update_miss db merchant id upd)
  unfolding disambiguate_update_miss
  Keeps-disambiguate upd = search (call_rules, Keeps-get_product)

  Keeps-update_product : (upd : Update) → Keeps (update_product db merchant id upd)
  unfolding update_product
  Keeps-update_product upd = search (call_rules, Keeps-disambiguate) depth 9

  pub Keeps-set_status : (status : Status) → Keeps (set_status db merchant id status)
  unfolding set_status
  Keeps-set_status status = search call_rules depth 9

  pub Keeps-update : (req : UpdateRequest) → Keeps (update db merchant id req)
  unfolding update
  Keeps-update req = search (call_rules, Keeps-get_product, Keeps-update_product) depth 9

pub Keeps-create :
    (db : Env) (merchant : String) (input : CreateInput) → Keeps (create db merchant input)
unfolding create create_product
Keeps-create db merchant input = search call_rules depth 12
