-- ===== src/Exec.antt =====
-- Go functions that return `(value, error)` and act on a state: the state comes back beside the
-- error too, since what was written before an early return stays written.

pub mod Outcome

pub data Result (E A : Type 0) : Type 0 where
  ok : A → Result E A
  err : E → Result E A

abbrev pub Exec : Type 0 → Type 0 → Type 0 → Type 0
Exec S E A = S → Result E A × S

module _ {S E A : Type 0} where
  abbrev pub pure : A → Exec S E A
  pure a s = (ok a, s)

  -- `return …, err`
  abbrev pub raise : E → Exec S E A
  raise e s = (err e, s)

  abbrev pub gets : (S → A) → Exec S E A
  gets f s = (ok (f s), s)

  -- The caller looks at the error itself.
  abbrev caught : Result E A × S → Result E (Result E A) × S
  caught (r, s) = (ok r, s)

  abbrev pub attempt : Exec S E A → Exec S E (Result E A)
  attempt m s = caught (m s)

  abbrev pub lift : Result E A → Exec S E A
  lift r s = (r, s)

abbrev pub modify : {S E : Type 0} → (S → S) → Exec S E (Unit {0})
modify f s = (ok tt, f s)

module _ {S E A B : Type 0} where
  abbrev pub continue : Result E A → (A → Exec S E B) → Exec S E B
  continue (ok a) f s = f a s
  continue (err e) f s = (err e, s)

  infixl 10 ◌>>=◌ ◌>>◌
  unfoldable pub ◌>>=◌ : Exec S E A → (A → Exec S E B) → Exec S E B
  ◌>>=◌ m f s = let (r, s') = m s in continue r f s'

  abbrev pub ◌>>◌ : Exec S E A → Exec S E B → Exec S E B
  m >> n = m >>= λ _. n

abbrev pub mapped : {E F A : Type 0} → (E → F) → Result E A → Result F A
mapped f (ok a) = ok a
mapped f (err e) = err (f e)

module _ {S E F A : Type 0} where
  -- `if err != nil { return translate(err) }`
  abbrev pub map_err : (E → F) → Exec S E A → Exec S F A
  map_err f m s = let (r, s') = m s in (mapped f r, s')
