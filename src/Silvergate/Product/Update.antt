-- ===== src/Silvergate/Product/Update.antt =====
-- services/silvergate/internal/product/update.go: partial updates and what they may change.
use distributed_payment_mana.Prelude.{
  ℤ, String, Bool, true, false, Option, none, some, ◌&&◌, ◌||◌, str_eq, if◌then◌else◌,
}
use distributed_payment_mana.Exec.{Result, ok, err}
use distributed_payment_mana.Silvergate.Errors.{
  ProductError, slug_removal, fields_locked, archived, empty_update,
}
use distributed_payment_mana.Silvergate.Product.Entity.{Product, is_archived, validate_slug}

abbrev pub is_some : {A : Type 0} → Option A → Bool
is_some none = false
is_some (some a) = true

pub record UpdateRequest : Type 0 where
  pub name : Option String
  pub description : Option String
  pub slug : Option String
  pub price : Option ℤ
  pub currency : Option String

pub record InfoUpdate : Type 0 where
  pub name : Option String
  pub description : Option String

pub record LockedAfterPurchase : Type 0 where
  pub slug : Option String
  pub price : Option ℤ
  pub currency : Option String

-- A group that is nil has no changes.
pub record Update : Type 0 where
  pub info : Option InfoUpdate
  pub locked : Option LockedAfterPurchase

abbrev info_of : UpdateRequest → Option InfoUpdate
info_of req =
    if is_some req.name || is_some req.description
    then some (record { name = req.name; description = req.description })
    else none

abbrev locked_of : UpdateRequest → Option LockedAfterPurchase
locked_of req =
    if is_some req.slug || is_some req.price || is_some req.currency
    then some (record { slug = req.slug; price = req.price; currency = req.currency })
    else none

abbrev slug_of : Option LockedAfterPurchase → Option String
slug_of none = none
slug_of (some l) = l.slug

-- The tests on a new slug, then the update.
abbrev check_slug : Option String → Update → Result ProductError Update
check_slug none upd = ok upd
check_slug (some s) upd =
    if str_eq s ""
    then err slug_removal
    else elim (validate_slug s) [ err e ↦ err e | ok _ ↦ ok upd ]

unfoldable pub new_update : UpdateRequest → Product → Result ProductError Update
unfolding is_archived
new_update req p =
    let info = info_of req in
    let locked = locked_of req in
    if (if is_some info then false else true) && (if is_some locked then false else true)
    then err empty_update
    else if is_archived p
    then err archived
    else if is_some locked && is_some p.first_purchased_at
    then err fields_locked
    else check_slug (slug_of locked) (record { info = info; locked = locked })
