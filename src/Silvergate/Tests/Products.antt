-- ===== src/Silvergate/Tests/Products.antt =====
-- Products and purchases on concrete inputs.
use distributed_payment_mana.Prelude.{pos, true, none, some, [], ◌∷◌, ◌≡◌, ◌↔◌, refl, ◌≤◌, ◌⊎◌}
use distributed_payment_mana.Exec.{ok, err, ◌>>=◌}
use distributed_payment_mana.Postgres.{statement, ticked}
use distributed_payment_mana.Silvergate.Tables.{TransactionRow, find}
use distributed_payment_mana.Silvergate.Errors.{purchase, idempotency_conflict}
use distributed_payment_mana.Silvergate.Runtime.{Gateway}
use distributed_payment_mana.Silvergate.Transaction.Entity.{captured}
use distributed_payment_mana.Silvergate.Transaction.Repo.{or_empty}
use distributed_payment_mana.Silvergate.Product.Entity.{Product, active, codes, validate_slug}
use distributed_payment_mana.Silvergate.Product.Update.{UpdateRequest, Update, new_update}
use distributed_payment_mana.Silvergate.Product.Repo.{
  ListFilter, update_guard, list_products, listed, page,
}
use distributed_payment_mana.Silvergate.Product.Service.{list, update}
use Prim.Native.String
use distributed_payment_mana.Silvergate.Product.Locked.{Kept, update-Kept, new_update-guard}
use distributed_payment_mana.Silvergate.Product.Slugs.{Slug, validate_slug-Slug}
use distributed_payment_mana.Silvergate.Product.Paging.{list-length}
use distributed_payment_mana.Silvergate.Purchase.{Request, purchase_product}
use distributed_payment_mana.Silvergate.Purchase.Replay.{Made, purchase_product-replayed}
use distributed_payment_mana.Silvergate.Tests.{shop, calm, order_row, holding}

abbrev mug : Product
mug = record {
  id = 7;
  merchant_id = "merchant";
  slug = some "mug";
  name = "Mug";
  description = "";
  price = pos 1000;
  currency = "USD";
  status = active;
  first_purchased_at = some 3;
  created_at = 1;
  updated_at = 3;
}

abbrev rename : Update
rename = record { info = some (record { name = some "Cup"; description = none }); locked = none }

abbrev rename_request : UpdateRequest
rename_request = record {
  name = some "Cup";
  description = none;
  slug = none;
  price = none;
  currency = none;
}

abbrev shelf : Gateway
shelf = record {
  tick = 0;
  store = record { transactions = []; refunds = []; products = mug ∷ [] };
  sent = [];
  tasks = [];
}

update-Kept_example :
    Kept "merchant" 7 shelf.store.products
      (update calm "merchant" 7 rename_request shelf).1.store.products
update-Kept_example = update-Kept calm "merchant" 7 rename_request shelf

new_update-guard_example : update_guard "merchant" 7 rename mug ≡ true
new_update-guard_example = new_update-guard rename_request mug rename (unfold new_update in refl)

validate_slug-Slug_example :
    (validate_slug "a-1" ≡ ok tt)
    ↔ ((1 ≤ String.len "a-1") × (String.len "a-1" ≤ 64) × Slug (codes "a-1"))
validate_slug-Slug_example = validate_slug-Slug "a-1"

abbrev any_product : ListFilter
any_product = record { status = none; cursor = none; limit = pos 50 }

listing : list calm "merchant" any_product shelf ≡ (ok (mug ∷ [], none), ticked shelf)
unfolding list ◌>>=◌ list_products statement page listed
listing = refl

list-length_example : 1 ≤ 100
list-length_example =
    list-length calm "merchant" any_product shelf (ticked shelf) (mug ∷ []) none listing

abbrev sold : Gateway
sold = record {
  tick = 20;
  store = holding (record (order_row captured none 0 10) {
    purchase_idempotency_key = some "k";
    product_id = some 7;
  });
  sent = [];
  tasks = [];
}

abbrev buy_again : Request
buy_again = record {
  merchant_id = "merchant";
  order_id = "order";
  product_id = 7;
  card_token = "tok";
  idempotency_key = "k";
}

abbrev sold_row : TransactionRow
sold_row = record (order_row captured none 0 10) {
  purchase_idempotency_key = some "k";
  product_id = some 7;
}

purchase_product-replayed_example :
    (Made buy_again sold_row
      × (purchase_product shop buy_again sold ≡ (
        ok (record {
          transaction_id = 2;
          product_id = 7;
          order_id = buy_again.order_id;
          status = captured;
          amount = sold_row.amount;
          currency = sold_row.currency;
          decline_reason = or_empty sold_row.decline_reason;
        }),
        ticked sold,
      )))
    ⊎ ((¬ Made buy_again sold_row)
        × (purchase_product shop buy_again sold
            ≡ (err (purchase idempotency_conflict), ticked sold)))
purchase_product-replayed_example =
    purchase_product-replayed shop buy_again sold sold_row refl (unfold find in refl)
