-- ===== src/Silvergate/Product/Entity.antt =====
-- services/silvergate/internal/product/entity.go: a product for sale and its slug.
use Prim.Native.Char.{code}
use distributed_payment_mana.Prelude.{
  ℕ, ℤ, String, Bool, true, false, Option, none, some, List, [], ◌∷◌, ◌||◌, ◌&&◌, not, leb, ltb,
  ◌==◌, if◌then◌else◌,
}
use Prim.Native.String
use distributed_payment_mana.Exec.{Result, ok, err}
use distributed_payment_mana.Postgres.{Uuid, Time}
use distributed_payment_mana.Silvergate.Errors.{ProductError, invalid_slug}

pub data Status : Type 0 where
  active archived : Status

pub record Product : Type 0 where
  pub id : Uuid
  pub merchant_id : String
  pub slug : Option String
  pub name : String
  pub description : String
  pub price : ℤ
  pub currency : String
  pub status : Status
  pub first_purchased_at : Option Time
  pub created_at : Time
  pub updated_at : Time

-- New. The values of uuid.New() and time.Now() are arguments.
unfoldable pub new_product :
    Uuid → Time → String → String → String → ℤ → String → Option String → Product
new_product id now merchant_id name description price currency slug = record {
  id = id;
  merchant_id = merchant_id;
  slug = slug;
  name = name;
  description = description;
  price = price;
  currency = currency;
  status = active;
  first_purchased_at = none;
  created_at = now;
  updated_at = now;
}

-- LockedAfterPurchase.FieldNames
abbrev pub field_names : List String
field_names = "slug" ∷ "price" ∷ "currency" ∷ []

abbrev locked_when : Option Time → List String
locked_when none = []
locked_when (some t) = field_names

-- LockedFields; a nil slice is empty.
unfoldable pub locked_fields : Product → List String
locked_fields p = locked_when p.first_purchased_at

abbrev status_is_archived : Status → Bool
status_is_archived active = false
status_is_archived archived = true

unfoldable pub is_archived : Product → Bool
is_archived p = status_is_archived p.status

-- The code points of a text.
abbrev pub codes : String → List ℕ
codes String.[] = []
codes (String.◌∷◌ c s) = code c ∷ codes s

-- [a-z0-9]
unfoldable pub is_slug_char : ℕ → Bool
is_slug_char c = leb b'a' c && leb c b'z' || leb b'0' c && leb c b'9'

-- ^[a-z0-9](-?[a-z0-9])*$ read from the left: what may follow a character of the class, what may
-- follow a dash.
unfoldable pub slug_rest : Bool → List ℕ → Bool
unfolding is_slug_char
slug_rest after_dash [] = not after_dash
slug_rest after_dash (c ∷ cs) =
    let next = slug_rest (c == b'-') cs in (is_slug_char c || c == b'-' && not after_dash) && next

-- slugRegex.MatchString: the first character is of the class.
unfoldable pub slug_matches : List ℕ → Bool
unfolding slug_rest
slug_matches cs = slug_rest true cs

-- ValidateSlug. `len(s)` counts bytes.
unfoldable pub validate_slug : String → Result ProductError (Unit {0})
unfolding slug_matches
validate_slug s =
    if ltb (String.len s) 1 || ltb 64 (String.len s)
    then err invalid_slug
    else if slug_matches (codes s)
    then ok tt
    else err invalid_slug
