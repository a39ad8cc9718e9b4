-- ===== src/Silvergate/Ledger/Sums.antt =====
-- How the accounts change when a row is added, updated or a goroutine goes on.
use distributed_payment_mana.Prelude.{
  ℤ, pos_part, Bool, true, false, none, some, List, [], ◌∷◌, ◌++◌, any, ◌&&◌, ◌==◌, ◌≡◌, ◌≢◌, refl,
  arith, ◌+◌, ◌≤◌, Bool-cases, inl, inr, if◌then◌else◌,
}
use distributed_payment_mana.Postgres.{Uuid}
use distributed_payment_mana.Silvergate.Transaction.Entity.{Refund}
use distributed_payment_mana.Silvergate.Tables.{
  TransactionRow, RefundRow, update_where, find, clashes,
}
use distributed_payment_mana.Silvergate.Tables.Rows.{IsKeyed, same_id}
use distributed_payment_mana.Silvergate.Runtime.{Task}
use distributed_payment_mana.Silvergate.Transaction.Repo.{has_id}
use distributed_payment_mana.Silvergate.Transaction.Repo.Outcome.{set_refund_status}
use distributed_payment_mana.Silvergate.Ledger.{
  is_done, paid_back, in_flight, owed, reserved, owner,
}

module _ (id : Uuid) where
  pub reserved-append :
      (xs ys : List TransactionRow) → reserved id (xs ++ ys) ≡ reserved id xs + reserved id ys
  unfolding reserved
  reserved-append [] ys = omega arith
  reserved-append (x ∷ xs) ys = omega (arith, reserved-append xs ys)

  pub paid_back-append :
      (xs ys : List RefundRow) → paid_back id (xs ++ ys) ≡ paid_back id xs + paid_back id ys
  unfolding paid_back
  paid_back-append [] ys = omega arith
  paid_back-append (x ∷ xs) ys = omega (arith, paid_back-append xs ys)

  pub in_flight-append :
      (xs ys : List Task) → in_flight id (xs ++ ys) ≡ in_flight id xs + in_flight id ys
  unfolding in_flight
  in_flight-append [] ys = omega arith
  in_flight-append (x ∷ xs) ys = omega (arith, in_flight-append xs ys)

  pub owed-append : (xs ys : List Task) → owed id (xs ++ ys) ≡ owed id xs + owed id ys
  unfolding owed
  owed-append [] ys = omega arith
  owed-append (x ∷ xs) ys = omega (arith, owed-append xs ys)

  -- An update of one transaction leaves what is reserved for the others.
  pub reserved-update_ne :
      (i : Uuid) (p : TransactionRow → Bool) (f : TransactionRow → TransactionRow)
      → ((r : TransactionRow) → p r ≡ true → r.id ≡ i)
      → ((r : TransactionRow) → (f r).id ≡ r.id)
      → i ≢ id
      → (xs : List TransactionRow) → reserved id (update_where p f xs) ≡ reserved id xs
  unfolding reserved update_where
  reserved-update_ne i p f here keeps ne [] = refl
  reserved-update_ne i p f here keeps ne (x ∷ xs) = elim (Bool-cases (p x)) [
    | inl t ↦ ground (arith, reserved-update_ne i p f here keeps ne xs, keeps x, here x t)
    | inr t ↦ ground (arith, reserved-update_ne i p f here keeps ne xs)
  ]

  -- An update that does not touch the column leaves all that is reserved.
  pub reserved-update_same :
      (p : TransactionRow → Bool) (f : TransactionRow → TransactionRow)
      → ((r : TransactionRow) → (f r).id ≡ r.id)
      → ((r : TransactionRow) → (f r).refunded_amount ≡ r.refunded_amount)
      → (xs : List TransactionRow) → reserved id (update_where p f xs) ≡ reserved id xs
  unfolding reserved update_where
  reserved-update_same p f keeps same [] = refl
  reserved-update_same p f keeps same (x ∷ xs) =
      ground (arith, reserved-update_same p f keeps same xs, keeps x, same x)

  reserved-none : (xs : List TransactionRow) → find (has_id id) xs ≡ none → reserved id xs ≡ 0
  unfolding reserved find
  reserved-none [] h = refl
  reserved-none (x ∷ xs) h = ground (arith, reserved-none xs)

  reserved_others :
      (y : TransactionRow) (xs : List TransactionRow)
      → any (same_id (λ (r : TransactionRow). r.id) y) xs ≡ false
      → y.id ≡ id
      → reserved id xs ≡ 0
  unfolding reserved any
  reserved_others y [] h e = refl
  reserved_others y (x ∷ xs) h e = ground (arith, reserved_others y xs)

  -- In a keyed table the row found holds all that is reserved.
  pub reserved-find :
      (xs : List TransactionRow) (r : TransactionRow)
      → IsKeyed (λ (r : TransactionRow). r.id) xs
      → find (has_id id) xs ≡ some r
      → reserved id xs ≡ pos_part r.refunded_amount
  unfolding reserved find clashes
  reserved-find [] r u h = absurd (ground arith)
  reserved-find (x ∷ xs) r u h = ground (arith, reserved-find xs r, reserved_others x xs)

  pub reserved-find-none :
      (xs : List TransactionRow) → find (has_id id) xs ≡ none → reserved id xs ≡ 0
  reserved-find-none = reserved-none

  paid_back_others :
      (y : RefundRow) (r : Refund) (xs : List RefundRow)
      → any (same_id (λ (r : RefundRow). r.id) y) xs ≡ false
      → y.id ≡ r.id
      → paid_back id (update_where (λ (row : RefundRow). row.id == r.id) (set_refund_status r) xs)
        ≡ paid_back id xs
  unfolding paid_back any update_where
  paid_back_others y r [] h e = refl
  paid_back_others y r (x ∷ xs) h e = ground (arith, paid_back_others y r xs)

  -- Marking a refund adds at most its amount to what is paid back, and that only if the bank did
  -- pay, and for the transaction that the refund belongs to.
  pub paid_back-update :
      (r : Refund) (tx : Uuid) (amount : ℤ) (xs : List RefundRow)
      → IsKeyed (λ (r : RefundRow). r.id) xs
      → owner r.id xs ≡ some (tx, amount)
      → paid_back id (update_where (λ (row : RefundRow). row.id == r.id) (set_refund_status r) xs)
        ≤ paid_back id xs + (if tx == id && is_done r.status then pos_part amount else 0)
  unfolding paid_back owner clashes update_where
  paid_back-update r tx amount [] u h = absurd (ground arith)
  paid_back-update r tx amount (x ∷ xs) u h =
      ground (arith, paid_back-update r tx amount xs, paid_back_others x r xs)

pub owner-append :
    (i : Uuid) (xs ys : List RefundRow) {o : Uuid × ℤ}
    → owner i xs ≡ some o
    → owner i (xs ++ ys) ≡ some o
unfolding owner
owner-append i [] ys h = absurd (ground arith)
owner-append i (x ∷ xs) ys {o} h = ground (arith, owner-append i xs ys {o = o})

any-append :
    {A : Type 0} (p : A → Bool) (xs : List A) (y : A) → any p (xs ++ y ∷ []) ≡ false → p y ≡ false
unfolding any
any-append p [] y h = ground arith
any-append p (x ∷ xs) y h = any-append p xs y (ground arith)

pub owner-append_new :
    (xs : List RefundRow) (y : RefundRow)
    → IsKeyed (λ (r : RefundRow). r.id) (xs ++ y ∷ [])
    → owner y.id (xs ++ y ∷ []) ≡ some (y.transaction_id, y.amount)
unfolding owner clashes any
owner-append_new [] y u = ground arith
owner-append_new (x ∷ xs) y u =
    ground (arith, owner-append_new xs y, any-append (same_id (λ (r : RefundRow). r.id) x) xs y)

pub owner-update :
    (i : Uuid) (r : Refund) (xs : List RefundRow)
    → owner i (update_where (λ (row : RefundRow). row.id == r.id) (set_refund_status r) xs)
      ≡ owner i xs
unfolding owner update_where
owner-update i r [] = refl
owner-update i r (x ∷ xs) = ground (arith, owner-update i r xs)
