-- ===== src/Silvergate/Product/Repo.antt =====
-- services/silvergate/internal/product/productrepo/pg.go and product/interfaces.go: the statements
-- on the table `products`.
use distributed_payment_mana.Prelude.{
  ℕ, ℤ, suc, pos_part, String, Bool, true, Option, none, some, List, [], ◌∷◌, ◌++◌, ◌+◌, ◌==◌, ltb,
  str_eq, ◌&&◌, ◌||◌, not, length, if◌then◌else◌,
}
use distributed_payment_mana.Exec.{Result, ok, err, map_err, lift, pure, ◌>>=◌, ◌>>◌}
use distributed_payment_mana.Postgres.{Uuid, Time, Env, DbError, unique_violation, statement, now}
use distributed_payment_mana.Silvergate.Errors.{
  Constraint, Error, ProductError, product, database, slug_conflict, fields_locked, archived,
}
use distributed_payment_mana.Silvergate.Product.Entity.{Status, active, Product, is_archived}
use distributed_payment_mana.Silvergate.Product.Update.{
  is_some, InfoUpdate, LockedAfterPurchase, Update,
}
use distributed_payment_mana.Silvergate.Tables.{
  Store, put_products, update_where, count_where, find,
}
use distributed_payment_mana.Silvergate.Runtime.{Call}

pub record Cursor : Type 0 where
  pub created_at : Time
  pub id : Uuid

-- With no status there is no filter on it; a limit of 0 or less asks for the default.
pub record ListFilter : Type 0 where
  pub status : Option Status
  pub cursor : Option Cursor
  pub limit : ℤ

-- `isUniqueViolation(err)` becomes ErrSlugConflict.
unfoldable pub map_slug_conflict : DbError Constraint → Error
map_slug_conflict (unique_violation c) = product slug_conflict
map_slug_conflict e = database e

abbrev counted : ℕ → Result (DbError Constraint) Store → Result (DbError Constraint) (ℕ × Store)
counted n (ok s) = ok (n, s)
counted n (err e) = err e

unfoldable pub insert_product : Product → Store → Result (DbError Constraint) (ℕ × Store)
unfolding put_products
insert_product p s = counted 1 (put_products (s.products ++ p ∷ []) s)

-- UPDATE products SET f WHERE p, with RowsAffected
unfoldable pub update_products :
    (Product → Bool) → (Product → Product) → Store → Result (DbError Constraint) (ℕ × Store)
unfolding update_where count_where put_products
update_products p f s =
    counted (count_where p s.products) (put_products (update_where p f s.products) s)

unfoldable pub select_product :
    (Product → Bool) → Store → Result (DbError Constraint) (Option Product × Store)
unfolding find
select_product p s = ok (find p s.products, s)

-- WHERE merchant_id = … AND id = …
abbrev pub owned_by : String → Uuid → Product → Bool
owned_by merchant id p = str_eq p.merchant_id merchant && p.id == id

abbrev pub is_active : Product → Bool
is_active p = not (is_archived p)

abbrev pub set_to : {A : Type 0} → Option A → A → A
set_to none old = old
set_to (some new) old = new

-- Columns that may hold NULL.
abbrev pub set_slug : Option String → Option String → Option String
set_slug none old = old
set_slug (some new) old = some new

abbrev set_info : Option InfoUpdate → Product → Product
set_info none p = p
set_info (some i) p = record p {
  name = set_to i.name p.name;
  description = set_to i.description p.description;
}

abbrev set_locked : Option LockedAfterPurchase → Product → Product
set_locked none p = p
set_locked (some l) p = record p {
  slug = set_slug l.slug p.slug;
  price = set_to l.price p.price;
  currency = set_to l.currency p.currency;
}

-- The SET clauses of Update.
unfoldable pub apply_update : Time → Update → Product → Product
apply_update at upd p =
    let q = set_locked upd.locked (set_info upd.info p) in record q { updated_at = at }

-- The WHERE clauses of Update: an active product, and one never purchased if a locked field changes.
unfoldable pub update_guard : String → Uuid → Update → Product → Bool
unfolding is_archived
update_guard merchant id upd p =
    owned_by merchant id p
    && is_active p
    && (if is_some upd.locked then not (is_some p.first_purchased_at) else true)

-- ORDER BY created_at DESC, id DESC: is the position of `p` before that of the cursor?
unfoldable pub newer : Time → Uuid → Time → Uuid → Bool
newer t i u j = ltb u t || t == u && ltb j i

unfoldable pub insert_newest : Product → List Product → List Product
unfolding newer
insert_newest p [] = p ∷ []
insert_newest p (q ∷ qs) =
    let rest = insert_newest p qs in
    if newer p.created_at p.id q.created_at q.id then p ∷ q ∷ qs else q ∷ rest

unfoldable pub newest_first : List Product → List Product
unfolding insert_newest
newest_first [] = []
newest_first (p ∷ ps) = insert_newest p (newest_first ps)

abbrev status_matches : Option Status → Product → Bool
status_matches none p = true
status_matches (some active) p = is_active p
status_matches (some Status.archived) p = is_archived p

-- (created_at, id) < (cursor.created_at, cursor.id)
abbrev after_cursor : Option Cursor → Product → Bool
after_cursor none p = true
after_cursor (some c) p = newer c.created_at c.id p.created_at p.id

unfoldable pub select_where : (Product → Bool) → List Product → List Product
select_where p [] = []
select_where p (x ∷ xs) = let rest = select_where p xs in if p x then x ∷ rest else rest

-- products[:n]
unfoldable pub first_n : ℕ → List Product → List Product
first_n ℕ.zero ps = []
first_n (suc n) [] = []
first_n (suc n) (p ∷ ps) = p ∷ first_n n ps

-- The rows that the query of List returns, before LIMIT.
unfoldable pub listed : String → ListFilter → Store → List Product
unfolding select_where newest_first is_archived newer
listed merchant filter s = newest_first (
    select_where
      (λ p.
        str_eq p.merchant_id merchant
        && status_matches filter.status p
        && after_cursor filter.cursor p)
      s.products)

-- The cursor of the last product of a page that is cut.
unfoldable pub last_cursor : List Product → Option Cursor
last_cursor [] = none
last_cursor (p ∷ []) = some (record { created_at = p.created_at; id = p.id })
last_cursor (p ∷ q ∷ qs) = last_cursor (q ∷ qs)

-- One row more than the limit is fetched; it only says that there is a next page.
unfoldable pub page : ℕ → List Product → List Product × Option Cursor
unfolding first_n last_cursor
page limit rows =
    let fetched = first_n (limit + 1) rows in
    if ltb limit (length fetched)
    then (first_n limit fetched, last_cursor (first_n limit fetched))
    else (fetched, none)

abbrev or_not_found : Option Product → Result Error Product
or_not_found none = err (product ProductError.not_found)
or_not_found (some p) = ok p

module _ (db : Env) where
  unfoldable pub create_product : Product → Call (Unit {0})
  create_product p = do n ← map_err map_slug_conflict (statement db (insert_product p)); pure tt

  unfoldable pub get_product : String → Uuid → Call Product
  get_product merchant id = do
    row ← map_err database (statement db (select_product (owned_by merchant id)))
    lift (or_not_found row)

  -- The limit is positive: Service.List has checked it.
  unfoldable pub list_products : String → ListFilter → Call (List Product × Option Cursor)
  list_products merchant filter = do
    rows ← map_err database (statement db (λ s. ok (listed merchant filter s, s)))
    pure (page (pos_part filter.limit) rows)

  abbrev missed : Update → Product → Result Error (Unit {0})
  missed upd p =
      if is_archived p
      then err (product archived)
      else if is_some upd.locked && is_some p.first_purchased_at
      then err (product fields_locked)
      else err (product ProductError.not_found)

  -- disambiguateUpdateMiss
  unfoldable pub disambiguate_update_miss : String → Uuid → Update → Call (Unit {0})
  unfolding is_archived
  disambiguate_update_miss merchant id upd = do p ← get_product merchant id; lift (missed upd p)

  unfoldable pub update_product : String → Uuid → Update → Call (Unit {0})
  update_product merchant id upd = do
    at ← now db
    n ←
        map_err map_slug_conflict
          (statement db (update_products (update_guard merchant id upd) (apply_update at upd)))
    if n == 0 then disambiguate_update_miss merchant id upd else pure tt

  unfoldable pub set_status : String → Uuid → Status → Call (Unit {0})
  set_status merchant id status = do
    at ← now db
    n ← map_err database (
        statement db (
          update_products (owned_by merchant id)
            (λ p. record p { status = status; updated_at = at })))
    lift (if n == 0 then err (product ProductError.not_found) else ok tt)

  -- MarkPurchased; `now()` is one value for both columns.
  unfoldable pub mark_purchased : String → Uuid → Call (Unit {0})
  mark_purchased merchant id = do
    at ← now db
    n ← map_err database (
        statement db (
          update_products (λ p. owned_by merchant id p && not (is_some p.first_purchased_at))
            (λ p. record p { first_purchased_at = some at; updated_at = at })))
    if n == 0 then get_product merchant id >> pure tt else pure tt
