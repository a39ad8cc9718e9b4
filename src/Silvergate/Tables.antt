-- ===== src/Silvergate/Tables.antt =====
-- The tables of services/silvergate/migrations, with the constraints that a statement must leave
-- true. A row has `none` where the column is NULL.
pub mod Rows
use distributed_payment_mana.Prelude.{
  ℕ, ℤ, pos, String, count, Bool, true, false, Option, none, some, List, [], ◌∷◌, ◌++◌, any, all,
  ◌==◌, str_eq, leb, max_int64, pos_part, neg_part, leb_ℤ, ltb_ℤ, ◌||◌, ◌&&◌, not, if◌then◌else◌,
  suc, ◌+◌,
}
use distributed_payment_mana.Exec.{Result, ok, err}
use distributed_payment_mana.Postgres.{
  Uuid, Time, DbError, unique_violation, check_violation, foreign_key_violation, World,
}
use distributed_payment_mana.Silvergate.Errors.{
  Constraint, transactions_pkey, idx_transactions_idempotency,
  idx_transactions_purchase_idempotency, refunds_pkey, idx_refunds_idempotency, products_pkey,
  idx_products_slug,
}
use distributed_payment_mana.Silvergate.Transaction.Entity.{
  Status, RefundStatus, Transaction, Refund,
}
use distributed_payment_mana.Silvergate.Product.Entity.{Product}

pub record TransactionRow : Type 0 where
  pub id : Uuid
  pub merchant_id : String
  pub order_ref : String
  pub amount : ℤ
  pub currency : String
  pub card_token : String
  pub status : Status
  pub decline_reason : Option String
  pub idempotency_key : Option String
  pub purchase_idempotency_key : Option String
  pub product_id : Option Uuid
  pub refunded_amount : ℤ
  pub created_at : Time
  pub updated_at : Time

pub record RefundRow : Type 0 where
  pub id : Uuid
  pub transaction_id : Uuid
  pub amount : ℤ
  pub status : RefundStatus
  pub idempotency_key : Option String
  pub created_at : Time
  pub updated_at : Time

-- The columns of `products` are the fields of a product.
pub record Store : Type 0 where
  pub transactions : List TransactionRow
  pub refunds : List RefundRow
  pub products : List Product

-- A unique index holds no row whose key is NULL.
abbrev pub same_key : Option String → Option String → Bool
same_key (some a) (some b) = str_eq a b
same_key (some a) none = false
same_key none b = false

abbrev pub same_uuid : Option Uuid → Uuid → Bool
same_uuid none b = false
same_uuid (some a) b = a == b

module _ {A : Type 0} where
  -- Do two rows clash?
  unfoldable pub clashes : (A → A → Bool) → List A → Bool
  clashes clash [] = false
  clashes clash (x ∷ xs) = any (clash x) xs || clashes clash xs

  -- UPDATE … SET f WHERE p
  unfoldable pub update_where : (A → Bool) → (A → A) → List A → List A
  update_where p f [] = []
  update_where p f (x ∷ xs) = (if p x then f x else x) ∷ update_where p f xs

  -- RowsAffected, and whether it is 0
  unfoldable pub count_where : (A → Bool) → List A → ℕ
  count_where p [] = 0
  count_where p (x ∷ xs) = (if p x then 1 else 0) + count_where p xs

  -- SELECT … WHERE p, as QueryRow reads it: the first row.
  unfoldable pub find : (A → Bool) → List A → Option A
  find p [] = none
  find p (x ∷ xs) = if p x then some x else find p xs

-- A BIGINT column holds no other number; a statement that would write one fails.
abbrev pub is_bigint : ℤ → Bool
is_bigint n = leb (pos_part n) max_int64 && leb (neg_part n) (suc max_int64)

-- The column types, CHECK (length(currency) = 3) and CHECK (refunded_amount >= 0). The CHECK on the
-- status lists every status.
unfoldable pub transaction_checks : TransactionRow → Bool
transaction_checks r =
    is_bigint r.amount
    && is_bigint r.refunded_amount
    && count r.currency == 3
    && leb_ℤ (pos 0) r.refunded_amount

abbrev transactions_clash_id : TransactionRow → TransactionRow → Bool
transactions_clash_id r s = r.id == s.id

abbrev transactions_clash_key : TransactionRow → TransactionRow → Bool
transactions_clash_key r s =
    str_eq r.merchant_id s.merchant_id && same_key r.idempotency_key s.idempotency_key

abbrev transactions_clash_purchase : TransactionRow → TransactionRow → Bool
transactions_clash_purchase r s =
    str_eq r.merchant_id s.merchant_id
    && same_key r.purchase_idempotency_key s.purchase_idempotency_key

-- product_id REFERENCES products(id)
unfoldable pub product_exists : List Product → TransactionRow → Bool
product_exists products r = elim r.product_id [
  | none ↦ true
  | some id ↦ any (λ (p : Product). p.id == id) products
]

-- The table `transactions` becomes `rows`, if its constraints allow them.
unfoldable pub put_transactions : List TransactionRow → Store → Result (DbError Constraint) Store
put_transactions rows s =
    if not (all transaction_checks rows)
    then err check_violation
    else if clashes transactions_clash_id rows
    then err (unique_violation transactions_pkey)
    else if clashes transactions_clash_key rows
    then err (unique_violation idx_transactions_idempotency)
    else if clashes transactions_clash_purchase rows
    then err (unique_violation idx_transactions_purchase_idempotency)
    else if not (all (product_exists s.products) rows)
    then err foreign_key_violation
    else ok (record s { transactions = rows })

-- CHECK (amount > 0)
unfoldable pub refund_checks : RefundRow → Bool
refund_checks r = is_bigint r.amount && ltb_ℤ (pos 0) r.amount

abbrev refunds_clash_id : RefundRow → RefundRow → Bool
refunds_clash_id r s = r.id == s.id

abbrev refunds_clash_key : RefundRow → RefundRow → Bool
refunds_clash_key r s =
    r.transaction_id == s.transaction_id && same_key r.idempotency_key s.idempotency_key

-- transaction_id REFERENCES transactions(id)
unfoldable pub transaction_exists : List TransactionRow → RefundRow → Bool
transaction_exists rows r = any (λ (t : TransactionRow). t.id == r.transaction_id) rows

unfoldable pub put_refunds : List RefundRow → Store → Result (DbError Constraint) Store
put_refunds rows s =
    if not (all refund_checks rows)
    then err check_violation
    else if clashes refunds_clash_id rows
    then err (unique_violation refunds_pkey)
    else if clashes refunds_clash_key rows
    then err (unique_violation idx_refunds_idempotency)
    else if not (all (transaction_exists s.transactions) rows)
    then err foreign_key_violation
    else ok (record s { refunds = rows })

-- CHECK (price > 0), CHECK (length(currency) = 3)
unfoldable pub product_checks : Product → Bool
product_checks p = is_bigint p.price && ltb_ℤ (pos 0) p.price && count p.currency == 3

abbrev products_clash_id : Product → Product → Bool
products_clash_id p q = p.id == q.id

abbrev products_clash_slug : Product → Product → Bool
products_clash_slug p q = str_eq p.merchant_id q.merchant_id && same_key p.slug q.slug

unfoldable pub put_products : List Product → Store → Result (DbError Constraint) Store
put_products rows s =
    if not (all product_checks rows)
    then err check_violation
    else if clashes products_clash_id rows
    then err (unique_violation products_pkey)
    else if clashes products_clash_slug rows
    then err (unique_violation idx_products_slug)
    else ok (record s { products = rows })
