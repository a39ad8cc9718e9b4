-- ===== src/Silvergate/Product/Locked.antt =====
-- services/silvergate/internal/product: what a purchase and an archive fix in a product, whatever
-- order the requests come in. The guard is that of the UPDATE statement, so it is read with the row.
use distributed_payment_mana.Prelude.{
  ℕ, Bool, ◌==◌, sym, subst, ◌∙◌, if◌then◌else◌, List, [], ◌∷◌, Bool-cases, inl, inr, ◌⊎◌, String,
  true, false, none, ◌≡◌, refl, arith, str_eq, eq_iff,
}
use distributed_payment_mana.Exec.{Result, ok, err, lift, mapped, continue, map_err, pure, ◌>>=◌}
use distributed_payment_mana.Exec.Outcome.{>>=-same}
use distributed_payment_mana.Postgres.{Uuid, Time, Env, statement, now, ticked}
use distributed_payment_mana.Silvergate.Tables.{update_where, put_products}
use distributed_payment_mana.Silvergate.Runtime.{Gateway, Call}
use distributed_payment_mana.Silvergate.Product.Service.{update}
use distributed_payment_mana.Silvergate.Errors.{Error, product}
use distributed_payment_mana.Silvergate.Product.Entity.{Product, is_archived}
use distributed_payment_mana.Silvergate.Product.Update.{UpdateRequest, Update, new_update}
use distributed_payment_mana.Silvergate.Product.Repo.{
  update_guard, apply_update, get_product, select_product, update_products, map_slug_conflict,
  disambiguate_update_miss, update_product,
}

-- What an update may do to a row: nothing, or a change of an active product of that merchant and
-- identifier, which keeps these and the time of the first purchase; slug, price and currency it
-- keeps too, unless the product was never purchased.
abbrev pub MayChange : String → Uuid → Product → Product → Type 0
MayChange merchant id p q =
    (q ≡ p)
    ⊎ ((is_archived p ≡ false)
        × (p.merchant_id ≡ merchant)
        × (p.id ≡ id)
        × (q.merchant_id ≡ merchant)
        × (q.id ≡ id)
        × (q.status ≡ p.status)
        × (q.first_purchased_at ≡ p.first_purchased_at)
        × ((p.first_purchased_at ≡ none)
            ⊎ ((q.slug ≡ p.slug) × (q.price ≡ p.price) × (q.currency ≡ p.currency))))

-- Row by row, in the order of the table.
abbrev pub Kept : String → Uuid → List Product → List Product → Type 0
Kept merchant id [] [] = Unit {0}
Kept merchant id [] (q ∷ qs) = ⊥
Kept merchant id (p ∷ ps) [] = ⊥
Kept merchant id (p ∷ ps) (q ∷ qs) = MayChange merchant id p q × Kept merchant id ps qs

same-Kept : (merchant : String) (id : Uuid) (ps : List Product) → Kept merchant id ps ps
same-Kept merchant id [] = tt
same-Kept merchant id (p ∷ ps) = (inl refl, same-Kept merchant id ps)

guarded :
    (merchant : String) (id : Uuid) (upd : Update) (at : Time) (p : Product)
    → update_guard merchant id upd p ≡ true
    → MayChange merchant id p (apply_update at upd p)
unfolding update_guard apply_update is_archived
guarded merchant id upd at p pass =
    let merchant_is = (eq_iff p.merchant_id merchant).0 in ground (arith, merchant_is)

update_where-Kept :
    (merchant : String) (id : Uuid) (upd : Update) (at : Time) (ps : List Product)
    → Kept merchant id ps (update_where (update_guard merchant id upd) (apply_update at upd) ps)
unfolding update_where
update_where-Kept merchant id upd at [] = tt
update_where-Kept merchant id upd at (p ∷ ps) =
    let rest = update_where-Kept merchant id upd at ps in
    elim (Bool-cases (update_guard merchant id upd p)) [
      | inl pass ↦ rw pass (guarded merchant id upd at p pass, rest)
      | inr miss ↦ rw miss (inl refl, rest)
    ]

-- An update that was planned for the product as it stands passes the guard of its statement: only
-- another request in between can make the statement miss.
pub new_update-guard :
    (req : UpdateRequest) (p : Product) (upd : Update)
    → new_update req p ≡ ok upd
    → update_guard p.merchant_id p.id upd p ≡ true
unfolding new_update update_guard is_archived
new_update-guard req p upd h =
    let same : str_eq p.merchant_id p.merchant_id ≡ true =
      (eq_iff p.merchant_id p.merchant_id).1 refl in
    ground (arith, same)

module _ (db : Env) (merchant : String) (id : Uuid) where
  read_same : (w : Gateway) → (get_product db merchant id w).1.store.products ≡ w.store.products
  unfolding get_product ◌>>=◌ statement select_product
  read_same w = ground arith

  written_cases :
      (p : Product → Bool) (f : Product → Product) (w : Gateway)
      → let after = (statement db (update_products p f) w).1.store.products in
        (after ≡ w.store.products) ⊎ (after ≡ update_where p f w.store.products)
  unfolding statement update_products put_products
  written_cases p f w = ground arith

  -- A part that changes no product, and then one that keeps them.
  same-then :
      {A B : Type 0} (ps : List Product) (m : Call A) (f : A → Call B) (w : Gateway)
      → (m w).1.store.products ≡ ps
      → ((a : A) (u : Gateway)
          → u.store.products ≡ ps
          → Kept merchant id ps (f a u).1.store.products)
      → Kept merchant id ps ((m >>= f) w).1.store.products
  unfolding ◌>>=◌
  same-then {A} {B} ps m f w same k = at (m w).0 (m w).1 same
    where
      at :
          (r : Result Error A) (u : Gateway)
          → u.store.products ≡ ps
          → Kept merchant id ps (continue r f u).1.store.products
      at (ok a) u e = k a u e
      at (err x) u e = subst (Kept merchant id ps) (sym e) (same-Kept merchant id ps)

  miss_same :
      (upd : Update) (w : Gateway)
      → (disambiguate_update_miss db merchant id upd w).1.store.products ≡ w.store.products
  unfolding disambiguate_update_miss
  miss_same upd w =
      >>=-same (λ (v : Gateway). v.store.products) (get_product db merchant id) _ w
        (λ p v. ground arith)
      ∙ read_same w

  finish_same :
      (upd : Update) (n : ℕ) (w : Gateway)
      → ((if n == 0 then disambiguate_update_miss db merchant id upd else pure tt)
          w).1.store.products
        ≡ w.store.products
  finish_same upd n w = elim (Bool-cases (n == 0)) [
    | inl z ↦ rw z (miss_same upd w)
    | inr s ↦ rw s refl
  ]

  update_product-Kept :
      (upd : Update) (w : Gateway)
      → Kept merchant id w.store.products (update_product db merchant id upd w).1.store.products
  unfolding update_product now ◌>>=◌
  update_product-Kept upd w =
      let p = update_guard merchant id upd in
      let f = apply_update (db.now w.tick) upd in
      let write : Call ℕ = map_err map_slug_conflict (statement db (update_products p f)) in
      let ended =
        >>=-same (λ (v : Gateway). v.store.products) write
          (λ n. if n == 0 then disambiguate_update_miss db merchant id upd else pure tt) (ticked w)
          (λ n v. finish_same upd n v) in
      elim (written_cases p f (ticked w)) [
        | inl same ↦
            subst (Kept merchant id w.store.products) (sym (ended ∙ same))
              (same-Kept merchant id w.store.products)
        | inr put ↦
            subst (Kept merchant id w.store.products) (sym (ended ∙ put))
              (update_where-Kept merchant id upd (db.now w.tick) w.store.products)
      ]

  -- Whatever an update of a product answers, it leaves every row of the table as it was, or changes
  -- an active product of that merchant and identifier. A product that was ever purchased keeps its
  -- slug, its price and its currency in any case, and no row is added, removed or moved.
  pub update-Kept :
      (req : UpdateRequest) (w : Gateway)
      → Kept merchant id w.store.products (update db merchant id req w).1.store.products
  unfolding update
  update-Kept req w =
      let ps = w.store.products in
      same-then ps (get_product db merchant id) _ w (read_same w) (λ p u e.
        same-then ps (lift (mapped product (new_update req p))) _ u e (λ upd v e'.
          subst (Kept merchant id ps)
            (sym (
              >>=-same (λ (x : Gateway). x.store.products) (update_product db merchant id upd)
                (λ x. get_product db merchant id) v (λ x y. read_same y)))
            (subst
              (λ (qs : List Product).
                Kept merchant id qs (update_product db merchant id upd v).1.store.products)
              e' (update_product-Kept upd v))))
