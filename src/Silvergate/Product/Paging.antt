-- ===== src/Silvergate/Product/Paging.antt =====
-- services/silvergate/internal/product/service.go and productrepo/pg.go: pages of a listing.
use distributed_payment_mana.Prelude.{
  ℕ, zero, suc, ◌+◌, ◌≤◌, pos_part, String, Option, List, [], ◌∷◌, length, ◌≡◌, arith,
}
use distributed_payment_mana.Exec.{ok, ◌>>=◌}
use distributed_payment_mana.Postgres.{Env, statement}
use distributed_payment_mana.Silvergate.Product.Entity.{Product}
use distributed_payment_mana.Silvergate.Product.Repo.{
  Cursor, ListFilter, first_n, page, listed, list_products,
}
use distributed_payment_mana.Silvergate.Product.Service.{list, max_list_limit, default_list_limit}
use distributed_payment_mana.Silvergate.Runtime.{Gateway}

first_n-length : (n : ℕ) (ps : List Product) → length (first_n n ps) ≤ n
unfolding first_n
first_n-length zero ps = omega arith
first_n-length (suc n) [] = omega arith
first_n-length (suc n) (p ∷ ps) = omega (arith, first_n-length n ps)

-- No page has more rows than its limit, the row fetched past it included.
page-length : (n : ℕ) (rows : List Product) → length (page n rows).0 ≤ n
unfolding page
page-length n rows = let fetched = first_n (n + 1) rows in ground (arith, first_n-length n fetched)

list_products-length :
    (db : Env) (merchant : String) (filter : ListFilter) (w v : Gateway) (ps : List Product)
    (next : Option Cursor)
    → list_products db merchant filter w ≡ (ok (ps, next), v)
    → length ps ≤ pos_part filter.limit
unfolding list_products ◌>>=◌ statement
list_products-length db merchant filter w v ps next h =
    ground (arith, page-length (pos_part filter.limit) (listed merchant filter w.store))

-- A listing that succeeds has at most 100 products, whatever limit the client has asked for.
pub list-length :
    (db : Env) (merchant : String) (filter : ListFilter) (w v : Gateway) (ps : List Product)
    (next : Option Cursor)
    → list db merchant filter w ≡ (ok (ps, next), v)
    → length ps ≤ pos_part max_list_limit
unfolding list
list-length db merchant filter w v ps next h =
    let given = list_products-length db merchant filter w v ps next in
    let asked =
      list_products-length db merchant (record filter { limit = default_list_limit }) w v ps next in
    ground (arith, given, asked)
