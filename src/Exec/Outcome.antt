-- ===== src/Exec/Outcome.antt =====
-- Taking a chain of calls apart from its end: what each call has returned.
use distributed_payment_mana.Prelude.{◌≡◌, refl, ◌⊎◌, inl, inr, arith}
use distributed_payment_mana.Exec.{Exec, Result, ok, err, lift, map_err, continue, ◌>>=◌}

pub Result-cases :
    {E A : Type 0} (r : Result E A) → ((a : A) × (r ≡ ok a)) ⊎ ((e : E) × (r ≡ err e))
Result-cases (ok a) = inl (a, refl)
Result-cases (err e) = inr (e, refl)

module _ {S E A B : Type 0} where
  continue-ok :
      (r : Result E A) (f : A → Exec S E B) (s : S) {b : B} {v : S}
      → continue r f s ≡ (ok b, v)
      → (a : A) × (r ≡ ok a) × (f a s ≡ (ok b, v))
  continue-ok (ok a) f s h = (a, refl, h)
  continue-ok (err e) f s h = absurd (ground arith)

  -- A chain that succeeds has succeeded at its first call.
  pub >>=-ok :
      (m : Exec S E A) (f : A → Exec S E B) (s : S) {b : B} {v : S}
      → (m >>= f) s ≡ (ok b, v)
      → (a : A) × (u : S) × (m s ≡ (ok a, u)) × (f a u ≡ (ok b, v))
  unfolding ◌>>=◌
  >>=-ok m f s h = let (a, r, k) = continue-ok (m s).0 f (m s).1 h in (a, (m s).1, ground arith, k)

module _ {S E A B : Type 0} where
  continue-error :
      (r : Result E A) (f : A → Exec S E B) (s : S) {e : E} {v : S}
      → continue r f s ≡ (err e, v)
      → ((r ≡ err e) × (v ≡ s)) ⊎ ((a : A) × (r ≡ ok a) × (f a s ≡ (err e, v)))
  continue-error (ok a) f s h = inr (a, refl, h)
  continue-error (err e) f s h = inl (ground arith)

  -- A chain that fails has failed at its first call or after it.
  pub >>=-error :
      (m : Exec S E A) (f : A → Exec S E B) (s : S) {e : E} {v : S}
      → (m >>= f) s ≡ (err e, v)
      → (m s ≡ (err e, v)) ⊎ ((a : A) × (u : S) × (m s ≡ (ok a, u)) × (f a u ≡ (err e, v)))
  unfolding ◌>>=◌
  >>=-error m f s h = elim (continue-error (m s).0 f (m s).1 h) [
    | inl (r, k) ↦ inl (ground arith)
    | inr (a, r, k) ↦ inr (a, (m s).1, ground arith, k)
  ]

-- The same for a proof that goes on with what the first call returned.
pub >>=-then {ℓ} :
    {S E A B : Type 0} {G : Type ℓ} (m : Exec S E A) (f : A → Exec S E B) (s : S) {b : B} {v : S}
    → (m >>= f) s ≡ (ok b, v)
    → ((a : A) (u : S) → m s ≡ (ok a, u) → f a u ≡ (ok b, v) → G)
    → G
>>=-then m f s h next = let (a, u, e, k) = >>=-ok m f s h in next a u e k

module _ {S E F A : Type 0} where
  pub map_err-ok :
      (f : E → F) (m : Exec S E A) (s : S) {a : A} {v : S}
      → map_err f m s ≡ (ok a, v)
      → m s ≡ (ok a, v)
  map_err-ok f m s h = ground arith

  pub map_err-error :
      (f : E → F) (m : Exec S E A) (s : S) {e : F} {v : S}
      → map_err f m s ≡ (err e, v)
      → (d : E) × (m s ≡ (err d, v)) × (e ≡ f d)
  map_err-error f m s h = elim (Result-cases (m s).0) [
    | inl (a, k) ↦ absurd (ground arith)
    | inr (d, k) ↦ (d, ground arith, ground arith)
  ]

module _ {S E A : Type 0} where
  pub lift-error :
      (r : Result E A) (s : S) {e : E} {v : S} → lift r s ≡ (err e, v) → (r ≡ err e) × (v ≡ s)
  lift-error r s h = ground arith

  pub lift-ok :
      (r : Result E A) (s : S) {a : A} {v : S} → lift r s ≡ (ok a, v) → (r ≡ ok a) × (v ≡ s)
  lift-ok r s h = ground arith

module _ {S E A B X : Type 0} where
  continue-same :
      (π : S → X) (r : Result E A) (f : A → Exec S E B) (s : S)
      → ((a : A) (u : S) → π (f a u).1 ≡ π u)
      → π (continue r f s).1 ≡ π s
  continue-same π (ok a) f s h = h a s
  continue-same π (err e) f s h = refl

  -- What the later calls of a chain never change is as the first call has left it.
  pub >>=-same :
      (π : S → X) (m : Exec S E A) (f : A → Exec S E B) (s : S)
      → ((a : A) (u : S) → π (f a u).1 ≡ π u)
      → π ((m >>= f) s).1 ≡ π (m s).1
  unfolding ◌>>=◌
  >>=-same π m f s h = continue-same π (m s).0 f (m s).1 h
