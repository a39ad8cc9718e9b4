-- ===== src/Silvergate/Machine.antt =====
-- The gateway under all its requests at once: a request runs whole, up to the goroutine that it
-- starts; a goroutine goes on by one of the parts that Settlement cuts it into, in any order among the
-- others. services/silvergate/router.go names the requests.
pub mod Refunds
use distributed_payment_mana.Prelude.{String, ℕ, List, [], ◌∷◌, ◌++◌, ◌≡◌}
use distributed_payment_mana.Exec.{Result, ok, err}
use distributed_payment_mana.Postgres.{Uuid}
use distributed_payment_mana.Silvergate.Errors.{Error}
use distributed_payment_mana.Silvergate.Runtime.{Gateway, Outside, Task}
use distributed_payment_mana.Silvergate.Transaction.Service.{
  AuthRequest, CaptureRequest, RefundRequest, authorize, capture, refund_payment, void,
}
use distributed_payment_mana.Silvergate.Transaction.Settlement.{run_task}
use distributed_payment_mana.Silvergate.Product.Update.{UpdateRequest}
use distributed_payment_mana.Silvergate.Product.Service.{
  CreateInput, create, update, archive, unarchive,
}
use distributed_payment_mana.Silvergate.Purchase
use distributed_payment_mana.Silvergate.Purchase.{purchase_product}

pub data Request : Type 0 where
  to_authorize : AuthRequest → Request
  to_capture : CaptureRequest → Request
  to_refund : RefundRequest → Request
  to_void : Uuid → Request
  to_purchase : Purchase.Request → Request
  to_create : String → CreateInput → Request
  to_update : String → Uuid → UpdateRequest → Request
  to_archive : String → Uuid → Request
  to_unarchive : String → Uuid → Request

-- What a request leaves of the gateway, whatever it answers.
unfoldable pub handle : Outside → Request → Gateway → Gateway
handle out (to_authorize req) w = (authorize out req w).1
handle out (to_capture req) w = (capture out req w).1
handle out (to_refund req) w = (refund_payment out req w).1
handle out (to_void id) w = (void out id w).1
handle out (to_purchase req) w = (purchase_product out req w).1
handle out (to_create merchant input) w = (create out.env merchant input w).1
handle out (to_update merchant id req) w = (update out.env merchant id req w).1
handle out (to_archive merchant id) w = (archive out.env merchant id w).1
handle out (to_unarchive merchant id) w = (unarchive out.env merchant id w).1

abbrev pub rest_of : Result Error (List Task) → List Task
rest_of (ok ts) = ts
rest_of (err e) = []

-- One goroutine goes on; what is left of it joins the others.
unfoldable pub resume : Outside → List Task → Task → Gateway → Gateway
resume out others t w =
    let (r, v) = run_task out t (record w { tasks = others }) in
    record v { tasks = v.tasks ++ rest_of r }

pub data Step (out : Outside) (w v : Gateway) : Type 0 where
  request : (r : Request) → v ≡ handle out r w → Step out w v
  goes_on :
      (xs : List Task) (t : Task) (ys : List Task)
      → w.tasks ≡ xs ++ t ∷ ys
      → v ≡ resume out (xs ++ ys) t w
      → Step out w v

pub data Reach (out : Outside) (s : Gateway) : Gateway → Type 0 where
  here : Reach out s s
  next : {w v : Gateway} → Reach out s w → Step out w v → Reach out s v

-- A gateway that has just been set up.
abbrev pub start : Gateway
start = record {
  tick = 0;
  store = record { transactions = []; refunds = []; products = [] };
  sent = [];
  tasks = [];
}
