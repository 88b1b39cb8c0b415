-- ===== src/Tests/Shields.antt =====
-- Purchases and refunds by the reader of Tests.Data. The verifier accepts every receipt but the empty one.
use text.Mathlib.Text.{◌==◌ as str_eq}
use book_club.Prelude.{◌≡◌, refl, Bool, not, String}
use book_club.Shield.Service.{purchase_shields, handle_refund_webhook}
use book_club.Shield.Balance.{balance, purchase_shields-refund}
use book_club.Tests.Data.{idle}

abbrev verify : String → String → String → Bool
verify platform receipt_data product_id = not (str_eq receipt_data "")

purchase_shields-refund_example :
    let s1 = (purchase_shields verify 61 7 "shield_3" "receipt" idle).1 in
    balance 7 (handle_refund_webhook 5 61 s1).1 ≡ balance 7 idle
purchase_shields-refund_example =
    purchase_shields-refund verify 61 5 7 3 "shield_3" "receipt" idle refl refl refl
