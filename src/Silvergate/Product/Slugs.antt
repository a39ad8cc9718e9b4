-- ===== src/Silvergate/Product/Slugs.antt =====
-- services/silvergate/internal/product/entity.go: the slug test against the regular expression.
use Prim.Native.String
use distributed_payment_mana.Exec.{ok}
use distributed_payment_mana.Prelude.{
  String, ◌≤◌, ℕ, Bool, true, false, List, [], ◌∷◌, ◌≡◌, ◌↔◌, refl, arith, ◌⊎◌, inl, inr,
}
use distributed_payment_mana.Silvergate.Product.Entity.{
  is_slug_char, slug_rest, slug_matches, codes, validate_slug,
}

-- [a-z0-9]
abbrev pub SlugChar : ℕ → Type 0
SlugChar c = ((b'a' ≤ c) × (c ≤ b'z')) ⊎ ((b'0' ≤ c) × (c ≤ b'9'))

-- (-?[a-z0-9])*
pub data Tail : List ℕ → Type 0 where
  done : Tail []
  char : (c : ℕ) (cs : List ℕ) → SlugChar c → Tail cs → Tail (c ∷ cs)
  dash : (c : ℕ) (cs : List ℕ) → SlugChar c → Tail cs → Tail (b'-' ∷ c ∷ cs)

-- ^[a-z0-9](-?[a-z0-9])*$
pub data Slug : List ℕ → Type 0 where
  slug : (c : ℕ) (cs : List ℕ) → SlugChar c → Tail cs → Slug (c ∷ cs)

in_class : (c : ℕ) → is_slug_char c ≡ true → SlugChar c
unfolding is_slug_char
in_class c h = ground arith

of_class : (c : ℕ) → SlugChar c → is_slug_char c ≡ true
unfolding is_slug_char
of_class c h = ground arith

step :
    (c : ℕ) (cs : List ℕ)
    → slug_rest true (c ∷ cs) ≡ true
    → (is_slug_char c ≡ true) × (slug_rest false cs ≡ true)
unfolding slug_rest is_slug_char
step c cs h = ground arith

unstep :
    (c : ℕ) (cs : List ℕ)
    → is_slug_char c ≡ true
    → slug_rest false cs ≡ true
    → (b : Bool) → slug_rest b (c ∷ cs) ≡ true
unfolding slug_rest is_slug_char
unstep c cs h k b = ground arith

-- After a character of the class there is one more, or a dash, after which there is one.
split :
    (c : ℕ) (cs : List ℕ)
    → slug_rest false (c ∷ cs) ≡ true
    → ((is_slug_char c ≡ true) × (slug_rest false cs ≡ true))
      ⊎ ((c ≡ b'-') × (slug_rest true cs ≡ true))
unfolding slug_rest is_slug_char
split c cs h = ground arith

after_dash : {cs : List ℕ} → Slug cs → Tail (b'-' ∷ cs)
after_dash (slug c cs h t) = dash c cs h t

to_Slug :
    (cs : List ℕ) → (slug_rest false cs ≡ true → Tail cs) × (slug_rest true cs ≡ true → Slug cs)
to_Slug [] = (λ h. done, λ h. absurd (unfold slug_rest in ground arith))
to_Slug (c ∷ cs) =
    let (tail, rest) = to_Slug cs in
    (
      λ h. elim (split c cs h) [
        | inl (k, l) ↦ char c cs (in_class c k) (tail l)
        | inr (k, l) ↦ rw k (after_dash (rest l))
      ],
      λ h. let (k, l) = step c cs h in slug c cs (in_class c k) (tail l),
    )

past_dash : (cs : List ℕ) → slug_rest true cs ≡ true → slug_rest false (b'-' ∷ cs) ≡ true
unfolding slug_rest
past_dash cs h = h

from_Tail : {cs : List ℕ} → Tail cs → slug_rest false cs ≡ true
from_Tail done = unfold slug_rest in refl
from_Tail (char c cs h t) = unstep c cs (of_class c h) (from_Tail t) false
from_Tail (dash c cs h t) = past_dash (c ∷ cs) (unstep c cs (of_class c h) (from_Tail t) true)

from_Slug : {cs : List ℕ} → Slug cs → slug_matches cs ≡ true
unfolding slug_matches
from_Slug (slug c cs h t) = unstep c cs (of_class c h) (from_Tail t) true

accepted :
    (s : String)
    → validate_slug s ≡ ok tt
    → (1 ≤ String.len s) × (String.len s ≤ 64) × (slug_matches (codes s) ≡ true)
unfolding validate_slug
accepted s h = (ground arith, ground arith, ground arith)

-- The test on the characters of a slug passes exactly the texts that the regular expression
-- ^[a-z0-9](-?[a-z0-9])*$ describes.
slug_matches-Slug : (cs : List ℕ) → (slug_matches cs ≡ true) ↔ Slug cs
unfolding slug_matches
slug_matches-Slug cs = ((to_Slug cs).1, from_Slug)

-- ValidateSlug accepts exactly the texts of 1 to 64 bytes that the regular expression
-- ^[a-z0-9](-?[a-z0-9])*$ describes.
pub validate_slug-Slug :
    (s : String)
    → (validate_slug s ≡ ok tt) ↔ ((1 ≤ String.len s) × (String.len s ≤ 64) × Slug (codes s))
unfolding validate_slug
validate_slug-Slug s =
    let same = slug_matches-Slug (codes s) in
    (
      λ h. let (low, high, match) = accepted s h in (low, high, same.0 match),
      λ (low, high, shape). let match = same.1 shape in ground arith,
    )
