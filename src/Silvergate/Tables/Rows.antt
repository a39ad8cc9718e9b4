-- ===== src/Silvergate/Tables/Rows.antt =====
-- Facts about the tables: what an update by identifier does to a lookup and to a clash of
-- identifiers, and what a statement that succeeds has written.
use mathlib.Core.Option
use distributed_payment_mana.Prelude.{
  Bool, true, false, some, List, [], ◌∷◌, ◌++◌, any, all, ◌≡◌, refl, arith, ◌==◌, All, Bool-cases,
  inl, inr, if◌then◌else◌,
}
use distributed_payment_mana.Exec.{ok}
use distributed_payment_mana.Postgres.{Uuid}
use distributed_payment_mana.Silvergate.Tables.{
  TransactionRow, RefundRow, Store, clashes, update_where, find, put_transactions, put_refunds,
  transaction_checks, refund_checks,
}

module _ {A : Type 0} (key : A → Uuid) where
  abbrev pub at_key : Uuid → A → Bool
  at_key i x = key x == i

  abbrev pub same_id : A → A → Bool
  same_id x y = key x == key y

  -- No two rows have the same key.
  abbrev pub IsKeyed : List A → Type 0
  IsKeyed xs = clashes same_id xs ≡ false

module _ {A : Type 0} (key : A → Uuid) (i : Uuid) (f : A → A)
    (keeps : (x : A) → key (f x) ≡ key x) where
  pub find-update_where :
      (j : Uuid) (xs : List A)
      → find (at_key key j) (update_where (at_key key i) f xs)
        ≡ (if i == j then Option.map f (find (at_key key j) xs) else find (at_key key j) xs)
  unfolding find update_where
  find-update_where j [] = ground arith
  find-update_where j (x ∷ xs) = ground (arith, find-update_where j xs, keeps x)

module _ {A : Type 0} (key : A → Uuid) where
  others-at_key :
      (i : Uuid) (xs : List A) (y : A)
      → any (same_id key y) xs ≡ false
      → key y ≡ i
      → All (λ x. (key x == i) ≡ true → x ≡ y) xs
  unfolding any
  others-at_key i [] y h e = tt
  others-at_key i (x ∷ xs) y h e = (λ t. ground arith, others-at_key i xs y (ground arith) e)

  -- In a keyed table the row found is the only one of its key.
  pub find_unique :
      (i : Uuid) (xs : List A) (y : A)
      → IsKeyed key xs
      → find (at_key key i) xs ≡ some y
      → All (λ x. (key x == i) ≡ true → x ≡ y) xs
  unfolding find clashes any
  find_unique i [] y u e = tt
  find_unique i (x ∷ xs) y u e = elim (Bool-cases (key x == i)) [
    | inl t ↦
        let x≡y : x ≡ y = ground arith in
        (λ _. x≡y, others-at_key i xs y (rw (← x≡y) (ground arith)) (ground arith))
    | inr t ↦ (λ h. ground arith, find_unique i xs y (ground arith) (ground arith))
  ]

  pub find-at_key : (i : Uuid) (xs : List A) (y : A) → find (at_key key i) xs ≡ some y → key y ≡ i
  unfolding find
  find-at_key i [] y e = cc
  find-at_key i (x ∷ xs) y e = ground (arith, find-at_key i xs y)

module _ {A : Type 0} (P Q : A → Type 0) where
  -- What holds of each row after an update.
  pub All-update_where :
      (p : A → Bool) (f : A → A) (xs : List A)
      → ((x : A) → P x → p x ≡ true → Q (f x))
      → ((x : A) → P x → p x ≡ false → Q x)
      → All P xs
      → All Q (update_where p f xs)
  unfolding update_where
  All-update_where p f [] hit miss h = tt
  All-update_where p f (x ∷ xs) hit miss (h, hs) =
      (one (p x) refl, All-update_where p f xs hit miss hs)
    where
      one : (b : Bool) → p x ≡ b → Q (if b then f x else x)
      one true e = hit x h e
      one false e = miss x h e

  pub All-map : (xs : List A) → ((x : A) → P x → Q x) → All P xs → All Q xs
  All-map [] imp h = tt
  All-map (x ∷ xs) imp (h, hs) = (imp x h, All-map xs imp hs)

module _ {A : Type 0} (P Q R : A → Type 0) where
  pub All-both : (xs : List A) → ((x : A) → P x → Q x → R x) → All P xs → All Q xs → All R xs
  All-both [] imp h k = tt
  All-both (x ∷ xs) imp (h, hs) (k, ks) = (imp x h k, All-both xs imp hs ks)

module _ {A : Type 0} (P : A → Type 0) where
  pub All-append : (xs ys : List A) → All P xs → All P ys → All P (xs ++ ys)
  All-append [] ys hx hy = hy
  All-append (x ∷ xs) ys (h, hx) hy = (h, All-append xs ys hx hy)

  pub All-append_inv : (xs ys : List A) → All P (xs ++ ys) → All P xs × All P ys
  All-append_inv [] ys h = (tt, h)
  All-append_inv (x ∷ xs) ys (h, hs) = let (a, b) = All-append_inv xs ys hs in ((h, a), b)

  pub find-All : (p : A → Bool) (xs : List A) (y : A) → All P xs → find p xs ≡ some y → P y
  unfolding find
  find-All p [] y h e = cc
  find-All p (x ∷ xs) y (h, hs) e = elim (Bool-cases (p x)) [
    | inl t ↦ let x≡y : x ≡ y = ground arith in rw (← x≡y) h
    | inr t ↦ find-All p xs y hs (ground arith)
  ]

  pub all-All :
      (p : A → Bool) (xs : List A) → ((x : A) → p x ≡ true → P x) → all p xs ≡ true → All P xs
  unfolding all
  all-All p [] imp h = tt
  all-All p (x ∷ xs) imp h = (imp x (ground arith), all-All p xs imp (ground arith))

module _ {A : Type 0} (key : A → Uuid) (P : A → Type 0) where
  -- In a keyed table an update by key changes the row found, and no other.
  pub All-update_found :
      (i : Uuid) (f : A → A) (xs : List A) (y : A)
      → IsKeyed key xs
      → find (at_key key i) xs ≡ some y
      → P (f y)
      → All P xs
      → All P (update_where (at_key key i) f xs)
  All-update_found i f xs y u e fy h =
      All-update_where (λ x. P x × ((key x == i) ≡ true → x ≡ y)) P (at_key key i) f xs
        (λ x hx t. let x≡y : x ≡ y = hx.1 t in rw x≡y fy) (λ x hx t. hx.0)
        (All-both P (λ x. (key x == i) ≡ true → x ≡ y) (λ x. P x × ((key x == i) ≡ true → x ≡ y)) xs
          (λ x a b. (a, b)) h (find_unique key i xs y u e))

-- What a statement on `transactions` that succeeds has found and written.
pub put_transactions_ok :
    (rows : List TransactionRow) (s : Store) {s' : Store}
    → put_transactions rows s ≡ ok s'
    → (s' ≡ record s { transactions = rows })
      × (all transaction_checks rows ≡ true)
      × IsKeyed (λ (r : TransactionRow). r.id) rows
unfolding put_transactions
put_transactions_ok rows s h = ground arith

pub put_refunds_ok :
    (rows : List RefundRow) (s : Store) {s' : Store}
    → put_refunds rows s ≡ ok s'
    → (s' ≡ record s { refunds = rows })
      × (all refund_checks rows ≡ true)
      × IsKeyed (λ (r : RefundRow). r.id) rows
unfolding put_refunds
put_refunds_ok rows s h = ground arith
