-- ===== src/Silvergate/Purchase/Replay.antt =====
-- services/silvergate/internal/purchase/service.go: a request whose idempotency key has been used.
use distributed_payment_mana.Prelude.{
  ◌∙◌, ◌⊎◌, inl, inr, if◌then◌else◌, Bool, true, false, Option, none, some, Bool-cases, sym, ◌≢◌,
  ◌&&◌, str_eq, ◌≡◌, refl, arith, eq_iff,
}
use mathlib.Core.Bool.{false≢true}
use native.Mathlib.Decide.{ℕ_discrete}
use distributed_payment_mana.Exec.{Result, ok, err, ◌>>=◌}
use distributed_payment_mana.Postgres.{Uuid, ticked, statement}
use distributed_payment_mana.Silvergate.Errors.{Error, purchase, idempotency_conflict}
use distributed_payment_mana.Silvergate.Tables.{TransactionRow, find, same_key}
use distributed_payment_mana.Silvergate.Transaction.Repo.{
  get_by_purchase_idempotency_key, select_transaction, scan_row, scan_transaction, or_empty,
}
use distributed_payment_mana.Silvergate.Transaction.Entity.{authorized, capture_pending, status_eq}
use distributed_payment_mana.Silvergate.Purchase.{
  Request, Response, replayed, check_idempotency, purchase_product, answered, is_product,
  same_request, response_from_tx,
}
use distributed_payment_mana.Silvergate.Runtime.{Gateway, Outside}

-- The row that holds the key of a request.
abbrev pub has_key : Request → TransactionRow → Bool
has_key req r =
    str_eq r.merchant_id req.merchant_id
    && same_key r.purchase_idempotency_key (some req.idempotency_key)

key_found :
    (out : Outside) (req : Request) (w : Gateway) (row : TransactionRow)
    → out.env.fault w.tick ≡ false
    → find (has_key req) w.store.transactions ≡ some row
    → get_by_purchase_idempotency_key out.env req.merchant_id req.idempotency_key w
      ≡ (ok (scan_row row), ticked w)
unfolding get_by_purchase_idempotency_key ◌>>=◌ statement select_transaction scan_transaction
key_found out req w row up h = rw (up, h) refl

answered_from :
    (out : Outside) (req : Request) (w : Gateway) (row : TransactionRow)
    → out.env.fault w.tick ≡ false
    → find (has_key req) w.store.transactions ≡ some row
    → purchase_product out req w ≡ (replayed (scan_row row) req, ticked w)
unfolding purchase_product check_idempotency answered ◌>>=◌
answered_from out req w row up h = (at (replayed (scan_row row) req) refl)
  where
    at :
        (x : Result Error Response)
        → replayed (scan_row row) req ≡ x
        → purchase_product out req w ≡ (replayed (scan_row row) req, ticked w)
    at (ok resp) e = rw (key_found out req w row up h, e) refl
    at (err x) e = rw (key_found out req w row up h, e) refl

-- The request is the one that made the row: same order, same card, same product.
abbrev pub Made : Request → TransactionRow → Type 0
Made req row =
    (row.order_ref ≡ req.order_id)
    × (row.card_token ≡ req.card_token)
    × (row.product_id ≡ some req.product_id)

product_cases :
    (p : Option Uuid) (id : Uuid)
    → ((is_product p id ≡ true) × (p ≡ some id)) ⊎ ((is_product p id ≡ false) × (p ≢ some id))
product_cases none id = inr (refl, λ e. ground arith)
product_cases (some p) id = elim (ℕ_discrete p id) [
  | yes e ↦ inl (ground arith, rw e refl)
  | no ne ↦ inr (ground arith, λ e. ne (ground arith))
]

same_request-Made :
    (req : Request) (row : TransactionRow)
    → ((same_request (scan_row row) req ≡ true) × Made req row)
      ⊎ ((same_request (scan_row row) req ≡ false) × (¬ Made req row))
unfolding same_request scan_row
same_request-Made req row =
    let order = eq_iff row.order_ref req.order_id in
    let card = eq_iff row.card_token req.card_token in
    elim (Bool-cases (str_eq row.order_ref req.order_id)) [
      | inr e ↦ inr (rw e refl, λ m. false≢true (sym e ∙ order.1 m.0))
      | inl e ↦ elim (Bool-cases (str_eq row.card_token req.card_token)) [
        | inr f ↦ inr (rw (e, f) refl, λ m. false≢true (sym f ∙ card.1 m.1))
        | inl f ↦ elim (product_cases row.product_id req.product_id) [
          | inl (g, p) ↦ inl (rw (e, f, g) refl, (order.0 e, card.0 f, p))
          | inr (g, p) ↦ inr (rw (e, f, g) refl, λ m. p m.2)
        ]
      ]
    ]

-- A purchase whose key a transaction of the merchant holds, on a database that answers, is one read
-- and nothing else: it charges nothing, writes nothing and starts nothing. Where the order, the card
-- and the product are those of the request that made the transaction, the answer is that transaction
-- as it stands, with an authorized one reported as capture pending; where one of them differs, it is
-- the idempotency conflict.
pub purchase_product-replayed :
    (out : Outside) (req : Request) (w : Gateway) (row : TransactionRow)
    → out.env.fault w.tick ≡ false
    → find (has_key req) w.store.transactions ≡ some row
    → (Made req row
        × (purchase_product out req w ≡ (
          ok (record {
            transaction_id = row.id;
            product_id = req.product_id;
            order_id = req.order_id;
            status = if status_eq row.status authorized then capture_pending else row.status;
            amount = row.amount;
            currency = row.currency;
            decline_reason = or_empty row.decline_reason;
          }),
          ticked w,
        )))
      ⊎ ((¬ Made req row)
          × (purchase_product out req w ≡ (err (purchase idempotency_conflict), ticked w)))
unfolding replayed same_request response_from_tx scan_row
purchase_product-replayed out req w row up h =
    let answer = answered_from out req w row up h in
    elim (same_request-Made req row) [
      | inl (same, made) ↦ inl (made, answer ∙ rw (same, made.0, made.2) refl)
      | inr (other, not_made) ↦ inr (not_made, answer ∙ rw other refl)
    ]
