-- ===== src/Silvergate/Product/Service.antt =====
-- services/silvergate/internal/product/service.go. Logging is left out.
use distributed_payment_mana.Prelude.{
  ℤ, pos, String, Option, none, some, List, leb_ℤ, ltb_ℤ, if◌then◌else◌,
}
use distributed_payment_mana.Exec.{Result, ok, mapped, lift, pure, raise, ◌>>=◌, ◌>>◌}
use distributed_payment_mana.Postgres.{Uuid, Env, now, new_uuid}
use distributed_payment_mana.Silvergate.Errors.{ProductError, product, limit_too_large}
use distributed_payment_mana.Silvergate.Product.Entity.{
  active, archived, Product, new_product, validate_slug,
}
use distributed_payment_mana.Silvergate.Product.Update.{UpdateRequest, new_update}
use distributed_payment_mana.Silvergate.Product.Repo.{
  Cursor, ListFilter, create_product, get_product, list_products, update_product, set_status,
  mark_purchased,
}
use distributed_payment_mana.Silvergate.Runtime.{Call}

abbrev pub default_list_limit : ℤ
default_list_limit = pos 20

abbrev pub max_list_limit : ℤ
max_list_limit = pos 100

pub record CreateInput : Type 0 where
  pub slug : Option String
  pub name : String
  pub description : String
  pub price : ℤ
  pub currency : String

abbrev valid_if_given : Option String → Result ProductError (Unit {0})
valid_if_given none = ok tt
valid_if_given (some s) = validate_slug s

module _ (db : Env) where
  unfoldable pub create : String → CreateInput → Call Product
  create merchant input = do
    lift (mapped product (valid_if_given input.slug))
    at ← now db
    id ← new_uuid db
    let p =
        new_product id at merchant input.name input.description input.price input.currency
          input.slug
    create_product db p
    pure p

  unfoldable pub get : String → Uuid → Call Product
  get merchant id = get_product db merchant id

  unfoldable pub list : String → ListFilter → Call (List Product × Option Cursor)
  list merchant filter =
      let limit = if leb_ℤ filter.limit (pos 0) then default_list_limit else filter.limit in
      if ltb_ℤ max_list_limit limit
      then raise (product limit_too_large)
      else list_products db merchant (record filter { limit = limit })

  unfoldable pub update : String → Uuid → UpdateRequest → Call Product
  update merchant id req = do
    p ← get_product db merchant id
    upd ← lift (mapped product (new_update req p))
    update_product db merchant id upd
    get_product db merchant id

  unfoldable pub archive : String → Uuid → Call (Unit {0})
  archive merchant id = set_status db merchant id archived

  unfoldable pub unarchive : String → Uuid → Call (Unit {0})
  unarchive merchant id = set_status db merchant id active

  -- MarkPurchased, and MarkPurchasedInTx through the executor of a transaction.
  unfoldable pub mark_purchased_in_tx : String → Uuid → Call (Unit {0})
  mark_purchased_in_tx merchant id = mark_purchased db merchant id
