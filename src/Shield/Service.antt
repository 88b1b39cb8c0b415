-- ===== src/Shield/Service.antt =====
-- backend/app/domains/shield: the catalogue of schemas.py, ShieldPurchaseRepository, and
-- ShieldPurchaseService. The verifier of receipts is outside the repository: it is an argument, and of its
-- answer only `is_valid` matters. Balances are not negative, so `max(0, a - b)` is `a - b` on ℕ.
use text.Mathlib.Text.{◌==◌ as str_eq}
use book_club.Prelude.{
  ℕ, ◌+◌, ◌-◌, Bool, Option, none, some, String, List, [], ◌∷◌, ◌++◌, not, ◌==◌, if◌then◌else◌,
  first, update_where,
}
use book_club.Core.Exceptions.{
  invalid_product, invalid_receipt, purchase_not_found, not_found_error, conflict_error,
}
use book_club.Core.Database.{Database}
use book_club.Core.Session.{Action, pure, require, raise_if, modify, ◌>>=◌, ◌>>◌}
use book_club.Reading.Repository.{get_or_init, update_streak_shields}
use book_club.Shield.Models.{ShieldPurchase, ShieldPurchaseResult}

-- product_id, shields, price_krw
abbrev pub shield_products : List (String × ℕ × ℕ)
shield_products = ("shield_1", 1, 990) ∷ ("shield_3", 3, 2490) ∷ []

abbrev shields_in : List (String × ℕ × ℕ) → String → Option ℕ
shields_in [] product_id = none
shields_in ((id, shields, price_krw) ∷ products) product_id =
    let rest = shields_in products product_id in if str_eq id product_id then some shields else rest

-- SHIELD_PRODUCTS.get(product_id)["shields"]
abbrev pub product_shields : String → Option ℕ
product_shields = shields_in shield_products

abbrev pub find_purchase : ℕ → Database → Option ShieldPurchase
find_purchase purchase_id db = first (λ p. p.id == purchase_id) db.shield_purchases

abbrev pub purchase_row : ℕ → ℕ → String → ℕ → String → ShieldPurchase
purchase_row id user_id product_id shields_granted receipt_data = record {
  id = id;
  user_id = user_id;
  product_id = product_id;
  shields_granted = shields_granted;
  receipt_data = receipt_data;
  refunded_at = none;
}

unfoldable pub create : ShieldPurchase → Action ShieldPurchase
create row = do
  modify (λ db. record db { shield_purchases = db.shield_purchases ++ row ∷ [] })
  pure row

abbrev pub refunded : ℕ → ShieldPurchase → ShieldPurchase
refunded now p = record p { refunded_at = some now }

unfoldable pub refund : ℕ → ℕ → Action (Unit {0})
refund now purchase_id = do
  require (find_purchase purchase_id) (not_found_error purchase_not_found)
  modify (λ db. record db {
    shield_purchases = update_where (λ p. p.id == purchase_id) (refunded now) db.shield_purchases;
  })

-- `verify platform receipt_data product_id`
unfoldable pub purchase_shields :
    (String → String → String → Bool) → ℕ → ℕ → String → String → Action ShieldPurchaseResult
unfolding create
purchase_shields verify id user_id product_id receipt_data = do
  shields_granted ← require (λ db. product_shields product_id) (conflict_error invalid_product)
  raise_if (not (verify "ios" receipt_data product_id)) (conflict_error invalid_receipt)
  create (purchase_row id user_id product_id shields_granted receipt_data)
  grade ← get_or_init user_id
  let new_balance = grade.streak_shields + shields_granted
  update_streak_shields user_id new_balance
  pure (record { shields_granted = shields_granted; total_shields = new_balance })

unfoldable pub handle_refund_webhook : ℕ → ℕ → Action (Unit {0})
unfolding refund
handle_refund_webhook now purchase_id = do
  purchase ← require (find_purchase purchase_id) (not_found_error purchase_not_found)
  refund now purchase_id
  grade ← get_or_init purchase.user_id
  let new_balance = grade.streak_shields - purchase.shields_granted
  update_streak_shields purchase.user_id new_balance
  pure tt
