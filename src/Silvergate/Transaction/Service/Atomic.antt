-- ===== src/Silvergate/Transaction/Service/Atomic.antt =====
-- What a request of the gateway leaves behind when it fails.
use distributed_payment_mana.Prelude.{
  ◌≡◌, refl, sym, ap, ◌∙◌, inl, inr, arith, ℕ, Bool, if◌then◌else◌,
}
use distributed_payment_mana.Exec.{Exec, Result, ok, err, lift, pure, map_err, continue, ◌>>=◌}
use distributed_payment_mana.Exec.Outcome.{>>=-error}
use distributed_payment_mana.Postgres.{
  Uuid, Env, DbError, IsoLevel, statement, now, new_uuid, in_transaction,
}
use distributed_payment_mana.Postgres.Outcome.{
  Quiet, statement-Quiet, in_transaction_error, in_transaction-Quiet,
}
use distributed_payment_mana.Silvergate.Errors.{Error, Constraint}
use distributed_payment_mana.Silvergate.Acquirer.{Unreachable}
use distributed_payment_mana.Silvergate.Tables.{Store}
use distributed_payment_mana.Silvergate.Runtime.{Gateway, Call, Outside}
use distributed_payment_mana.Silvergate.Transaction.Entity.{Transaction, Refund}
use distributed_payment_mana.Silvergate.Transaction.Repo.{
  create, get_by_id, get_by_id_for_update, update_status, update_refund, create_refund,
  insert_transaction,
}
use distributed_payment_mana.Silvergate.Transaction.Service.{
  AuthRequest, CaptureRequest, RefundRequest, ask, authorize, authorize_in_tx, capture_in_tx,
  capture, refund_in_tx, refund_payment, void_in_tx, void,
}

-- The tables, the webhooks and the goroutines are those found.
pub record Unchanged (w v : Gateway) : Type 0 where
  pub store : v.store ≡ w.store
  pub sent : v.sent ≡ w.sent
  pub tasks : v.tasks ≡ w.tasks

-- A call that sends nothing and starts nothing, whether it succeeds or fails.
pub record IsQuiet {E A : Type 0} (m : Exec Gateway E A) : Type 0 where
  pub at : (w : Gateway) → Quiet w (m w).1

module _ {E A B : Type 0} where
  pub IsQuiet-bind :
      (m : Exec Gateway E A) (f : A → Exec Gateway E B)
      → IsQuiet m
      → ((a : A) → IsQuiet (f a))
      → IsQuiet (m >>= f)
  unfolding ◌>>=◌
  IsQuiet-bind m f qm qf = record { at = λ w. go (m w).0 (m w).1 w (qm.at w) }
    where
      go : (r : Result E A) (v w : Gateway) → Quiet w v → Quiet w (continue r f v).1
      go (ok a) v w q = let (s, t) = (qf a).at v in (s ∙ q.0, t ∙ q.1)
      go (err e) v w q = q

module _ {E A : Type 0} where
  pub IsQuiet-lift : (r : Result E A) → IsQuiet (lift r)
  IsQuiet-lift r = record { at = λ w. (refl, refl) }

  pub IsQuiet-pure : (a : A) → IsQuiet (pure {E = E} a)
  IsQuiet-pure a = record { at = λ w. (refl, refl) }

  pub IsQuiet-map_err :
      {F : Type 0} (f : E → F) (m : Exec Gateway E A) → IsQuiet m → IsQuiet (map_err f m)
  IsQuiet-map_err f m q = record { at = q.at }

pub IsQuiet-if :
    {E A : Type 0} (b : Bool) (m n : Exec Gateway E A)
    → IsQuiet m
    → IsQuiet n
    → IsQuiet (if b then m else n)
IsQuiet-if Bool.true m n qm qn = qm
IsQuiet-if Bool.false m n qm qn = qn

pub IsQuiet-statement :
    {A : Type 0} (env : Env) (q : Store → Result (DbError Constraint) (A × Store))
    → IsQuiet (statement env q)
IsQuiet-statement env q = record { at = statement-Quiet env q }

pub IsQuiet-now : {E : Type 0} (env : Env) → IsQuiet (now {E = E} env)
unfolding now
IsQuiet-now env = record { at = λ w. (refl, refl) }

pub IsQuiet-new_uuid : {E : Type 0} (env : Env) → IsQuiet (new_uuid {E = E} env)
unfolding new_uuid
IsQuiet-new_uuid env = record { at = λ w. (refl, refl) }

pub IsQuiet-ask : {A : Type 0} (call : ℕ → Result Unreachable A) → IsQuiet (ask call)
unfolding ask
IsQuiet-ask call = record { at = λ w. (refl, refl) }

pub IsQuiet-in_transaction :
    {A : Type 0} (env : Env) (e : Error) (iso : IsoLevel) (m : Call A)
    → IsQuiet m
    → IsQuiet (in_transaction env e iso m)
IsQuiet-in_transaction env e iso m q = record { at = λ w. in_transaction-Quiet env e iso m w q.at }

pub ruleset quiet_rules = (
  IsQuiet-bind, IsQuiet-lift, IsQuiet-pure, IsQuiet-map_err, IsQuiet-statement, IsQuiet-now,
  IsQuiet-new_uuid, IsQuiet-ask, IsQuiet-in_transaction,
)

module _ (db : Env) where
  pub IsQuiet-create : (t : Transaction) → IsQuiet (create db t)
  unfolding create
  IsQuiet-create t = search quiet_rules

  pub IsQuiet-get_by_id : (id : Uuid) → IsQuiet (get_by_id db id)
  unfolding get_by_id
  IsQuiet-get_by_id id = search quiet_rules

  IsQuiet-get_by_id_for_update : (id : Uuid) → IsQuiet (get_by_id_for_update db id)
  unfolding get_by_id_for_update
  IsQuiet-get_by_id_for_update id = search quiet_rules

  pub IsQuiet-update_status : (t : Transaction) → IsQuiet (update_status db t)
  unfolding update_status
  IsQuiet-update_status t = search quiet_rules

  IsQuiet-update_refund : (t : Transaction) → IsQuiet (update_refund db t)
  unfolding update_refund
  IsQuiet-update_refund t = search quiet_rules

  IsQuiet-create_refund : (r : Refund) → IsQuiet (create_refund db r)
  unfolding create_refund
  IsQuiet-create_refund r = search quiet_rules

ruleset repo_rules = (
  quiet_rules, IsQuiet-create, IsQuiet-get_by_id, IsQuiet-get_by_id_for_update,
  IsQuiet-update_status, IsQuiet-update_refund, IsQuiet-create_refund,
)

module _ (out : Outside) where
  pub IsQuiet-authorize_in_tx : (req : AuthRequest) → IsQuiet (authorize_in_tx out req)
  unfolding authorize_in_tx
  IsQuiet-authorize_in_tx req = search repo_rules depth 9

  IsQuiet-capture_in_tx : (req : CaptureRequest) → IsQuiet (capture_in_tx out req)
  unfolding capture_in_tx
  IsQuiet-capture_in_tx req = search repo_rules depth 9

  IsQuiet-refund_in_tx : (req : RefundRequest) → IsQuiet (refund_in_tx out req)
  unfolding refund_in_tx
  IsQuiet-refund_in_tx req = search repo_rules depth 12

  IsQuiet-void_in_tx : (id : Uuid) → IsQuiet (void_in_tx out id)
  unfolding void_in_tx
  IsQuiet-void_in_tx id = search repo_rules depth 12

-- A request whose transaction fails has failed; one whose transaction succeeds has not.
module _ {A B : Type 0} (env : Env) (unreachable : Error) (iso : IsoLevel) (fn : Call A)
    (quiet : IsQuiet fn) (done : A → Gateway → B × Gateway) (w : Gateway) where
  pub transaction_Unchanged :
      {e : Error} {v : Gateway}
      → (in_transaction env unreachable iso fn >>= λ a u. (ok (done a u).0, (done a u).1)) w
        ≡ (err e, v)
      → Unchanged w v
  transaction_Unchanged {e} {v} h = elim (>>=-error _ _ w h) [
    | inl failed ↦
        let q = in_transaction-Quiet env unreachable iso fn w quiet.at in
        record {
          store =
              ap (λ (p : Result Error A × Gateway). p.1.store) (sym failed)
              ∙ in_transaction_error env unreachable iso fn w
                  (ap (λ (p : Result Error A × Gateway). p.0) failed);
          sent = ap (λ (p : Result Error A × Gateway). p.1.sent) (sym failed) ∙ q.0;
          tasks = ap (λ (p : Result Error A × Gateway). p.1.tasks) (sym failed) ∙ q.1;
        }
    | inr (a, u, e1, e2) ↦ absurd (ground arith)
  ]

module _ (out : Outside) (w : Gateway) {e : Error} {v : Gateway} where
  pub authorize_in_tx_error :
      (req : AuthRequest) → authorize_in_tx out req w ≡ (err e, v) → Unchanged w v
  unfolding authorize_in_tx ask now new_uuid create statement insert_transaction ◌>>=◌
  authorize_in_tx_error req h = ground arith

  -- A capture that fails, for any reason, leaves the tables as they were, posts no webhook and starts
  -- no goroutine.
  pub capture_error : (req : CaptureRequest) → capture out req w ≡ (err e, v) → Unchanged w v
  unfolding capture ◌>>=◌
  capture_error req h = transaction_Unchanged out.env _ _ _ (IsQuiet-capture_in_tx out req) _ w h

  -- A refund that fails, for any reason, leaves the tables as they were, posts no webhook and starts
  -- no goroutine.
  pub refund_error : (req : RefundRequest) → refund_payment out req w ≡ (err e, v) → Unchanged w v
  unfolding refund_payment ◌>>=◌
  refund_error req h = transaction_Unchanged out.env _ _ _ (IsQuiet-refund_in_tx out req) _ w h

  -- A void that fails, for any reason, leaves the tables as they were, posts no webhook and starts no
  -- goroutine.
  pub void_error : (id : Uuid) → void out id w ≡ (err e, v) → Unchanged w v
  unfolding void ◌>>=◌
  void_error id h = transaction_Unchanged out.env _ _ _ (IsQuiet-void_in_tx out id) _ w h

  -- A bare authorization that fails leaves the tables as they were, posts no webhook and starts no
  -- goroutine.
  pub authorize_error : (req : AuthRequest) → authorize out req w ≡ (err e, v) → Unchanged w v
  unfolding authorize
  authorize_error req h = elim (>>=-error _ _ w h) [
    | inl failed ↦ authorize_in_tx_error req failed
    | inr (a, u, e1, e2) ↦ absurd (ground arith)
  ]
